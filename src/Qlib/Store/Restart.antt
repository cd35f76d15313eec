-- ===== src/Qlib/Store/Restart.antt =====
-- The identifiers of messages that servers make which run one after the other on the same store.
use mnm.Prelude.{ℕ, zero, suc, ◌+◌, ◌%◌, ◌<◌, ◌≡◌, true, false, some, Text, arith, eq_text}
use mnm.Prelude.Order.{leb_text}
use mnm.Qlib.Op.{ok}
use mnm.Qlib.Store.{Store, make_id, max_uint64, init}
use mnm.Qlib.Store.Ids.{make_id-ordered}

-- The store after so many identifiers.
pub after_ids : ℕ → Store → Store
after_ids zero s = s
after_ids (suc n) s = after_ids n (make_id s).1

next_id-after_ids :
    (n : ℕ) (s : Store) → s.next_id + n < max_uint64 → (after_ids n s).next_id ≡ s.next_id + n
unfolding after_ids make_id
next_id-after_ids zero s h = omega arith
next_id-after_ids (suc n) s h =
    let step : (s.next_id + 1) % max_uint64 ≡ s.next_id + 1 = omega arith in
    let rest = next_id-after_ids n (make_id s).1 (omega (arith, step, h)) in
    omega (arith, rest, step)

-- A server that starts at time `t` makes an identifier after `m` others; later one starts at time `t'`
-- and makes an identifier after `n` others. If the first had made fewer identifiers than nanoseconds
-- had passed, its own differs from the second's and comes before it in the order of delivery.
pub restart-ordered :
    (now now' t t' m n : ℕ) (s s' : Store)
    → t + m < t' + n
    → t' + n + 1 < max_uint64
    → (a : Text) × (b : Text) × ((make_id (after_ids m (init now (some t) s))).0 ≡ ok a)
      × ((make_id (after_ids n (init now' (some t') s'))).0 ≡ ok b)
      × (leb_text a b ≡ true)
      × (eq_text a b ≡ false)
unfolding init
restart-ordered now now' t t' m n s s' h g =
    let u = init now (some t) s in
    let u' = init now' (some t') s' in
    let small : t % max_uint64 ≡ t = omega arith in
    let small' : t' % max_uint64 ≡ t' = omega arith in
    let first = next_id-after_ids m u (omega (arith, small, h, g)) in
    let second = next_id-after_ids n u' (omega (arith, small', h, g)) in
    make_id-ordered (after_ids m u) (after_ids n u')
      (omega (arith, first, second, small, small', h)) (omega (arith, second, small', g))
