-- ===== src/Qlib/Frame/Overflow.antt =====
-- _runLink adds a length that a client chose to a position in its buffer, on int64.
use mnm.Prelude.{
  ℕ, ◌+◌, ◌-◌, ◌<◌, ◌≤◌, ◌≡◌, refl, true, false, Option, none, some, [], ◌∷◌, ◌++◌, Text, length,
  take, drop, ltb, arith, take-append,
}
use mnm.Qlib.Header.{pos, negsuc, Header, check}
use mnm.Qlib.Quit.{Quit}
use mnm.Qlib.Op.{Result}
use mnm.Qlib.Frame.{
  header_min_len, data_end, message_data, panics, step, headed, handled, read_message,
}
use mnm.Qlib.Frame.Stream.{packed, length-packed, header_end-packed, take_four}

module _ {ℓ} {S : Type ℓ} (unmarshal : Text → Option Header)
    (handle : ℕ → Header → Text → S → Result (Option Quit) × S) where
  -- A checked header whose data end past the greatest int64.
  pub record IsOverlong (head : Text) (h : Header) (n : ℕ) : Type 0 where
    pub read : unmarshal head ≡ some h
    pub checked : check h ≡ true
    pub claimed : h.data_len ≡ pos n
    pub in_range : n < 0x8000000000000000
    pub past : 0x8000000000000000 ≤ length head + 4 + n
    pub least : header_min_len ≤ length head
    pub most : length head < 0x10000

  module _ {head : Text} {h : Header} {n : ℕ} (o : IsOverlong head h n) (b : ℕ) (body : Text) where
    data_end-overlong :
        data_end (length head + 4) h.data_len ≡ negsuc (0xFFFFFFFFFFFFFFFF - (length head + 4 + n))
    data_end-overlong =
        let e : ltb (length head + 4 + n) 0x8000000000000000 ≡ false = ground (arith, o.past) in
        rw o.claimed (rw e refl)

    message_data-overlong : message_data (packed head (b ∷ body) []) (length head + 4) h ≡ none
    unfolding message_data
    message_data-overlong =
        let sizes = length-packed head (b ∷ body) [] in
        let f : ltb (length head + 4) (length (packed head (b ∷ body) [])) ≡ true =
          ground (arith, sizes) in
        let g : ltb 0 n ≡ true = ground (arith, o.past, o.most) in
        rw f (rw data_end-overlong (rw o.claimed (rw g refl)))

    read_message-overlong :
        read_message unmarshal handle (packed head (b ∷ body) []) (length head + 4) ≡ some (h, none)
    unfolding read_message
    read_message-overlong =
        let cut : drop 4 (take (length head + 4) (packed head (b ∷ body) [])) ≡ head =
          rw take_four (take-append head ((b ∷ body) ++ [])) in
        rw (read_message, cut) (rw o.read (rw o.checked (rw message_data-overlong refl)))

    -- A header that passes the check and claims data past the greatest int64 makes _runLink panic on
    -- the first byte after it, whatever the handler does and the link has done before.
    pub step-overlong : (st : S) → step unmarshal handle st (packed head (b ∷ body) []) 0 ≡ panics
    unfolding step headed handled
    step-overlong st =
        let sizes = length-packed head (b ∷ body) [] in
        let f1 : ltb (length (packed head (b ∷ body) [])) 12 ≡ false =
          ground (arith, sizes, o.least) in
        let f2 : ltb (length head + 4) 12 ≡ false = ground (arith, o.least) in
        let f3 : ltb (length (packed head (b ∷ body) [])) (length head + 4) ≡ false =
          ground (arith, sizes) in
        rw (f1, header_end-packed head (b ∷ body) [] o.most)
          (rw (f2, f3) (rw read_message-overlong refl))
