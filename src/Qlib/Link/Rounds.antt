-- ===== src/Qlib/Link/Rounds.antt =====
-- The loop of the label Parse ends: each round but the last takes bytes from the buffer.
use mnm.Prelude.{
  ℕ, zero, suc, ◌+◌, ◌-◌, ◌<◌, ◌≤◌, ◌≡◌, ◌≢◌, inl, inr, true, Option, none, some, ◌++◌, Text,
  length, take, drop, ltb, if◌then◌else◌, arith, Bool-cases, length-drop,
}
use mnm.Qlib.Header.{ℤ, pos, negsuc, Header, check}
use mnm.Qlib.Header.Bounds.{Holds, check-Holds}
use mnm.Qlib.Quit.{Quit}
use mnm.Qlib.Op.{Result, ok, err, panic}
use mnm.Qlib.Frame.{
  header_min_len, data_end, message_data, rest_of, Step, waits, quits, panics, again, step, headed,
  handled, answered, advance, read_message, header_end, parse,
}
use mnm.Qlib.Frame.Stream.{after, parse-suc}
use mnm.Qlib.Link.{
  Read, got, broken, read_piece, Reader, no_fuel, after_parse, after_read, read_turn, buf_max,
}

-- The end of the data of a header that passes the check comes after the header, or is negative.
abbrev IsPast : ℕ → ℤ → Type 0
IsPast e (pos f) = e ≤ f
IsPast e (negsuc n) = Unit {0}

data_end-IsPast : (e : ℕ) (h : Header) → check h ≡ true → IsPast e (data_end e h.data_len)
data_end-IsPast e h c = by_length h.data_len h.data_head (check-Holds h c).0
  where
    by_length : (n d : ℤ) → Holds n d → IsPast e (data_end e n)
    by_length (pos n) d p = elim (Bool-cases (ltb (e + n) 0x8000000000000000)) [
      | inl f ↦ rw f (omega arith)
      | inr f ↦ rw f tt
    ]
    by_length (negsuc n) d (m, k, z, rest, last) = let never : ⊥ = cc in absurd never

module _ {S : Type 0} (unmarshal : Text → Option Header)
    (handle : ℕ → Header → Text → S → Result (Option Quit) × S) where
  -- Bytes that are parsed again are fewer.
  abbrev Shrinks : ℕ → Step S → Type 0
  Shrinks n (again s b) = length b < n
  Shrinks n _ = Unit {0}

  advance-Shrinks :
      (s : S) (buf : Text) (end : ℤ)
      → IsPast (header_min_len + 4) end
      → Shrinks (length buf) (advance unmarshal handle s buf end)
  unfolding advance rest_of
  advance-Shrinks s buf (negsuc n) p = tt
  advance-Shrinks s buf (pos f) p = elim (Bool-cases (ltb f (length buf))) [
    | inl e ↦ rw (Shrinks, e) (ground (arith, length-drop f buf))
    | inr e ↦ rw (Shrinks, e) tt
  ]

  answered-Shrinks :
      (buf : Text) (end : ℤ) (r : Result (Option Quit) × S)
      → IsPast (header_min_len + 4) end
      → Shrinks (length buf) (answered unmarshal handle buf end r)
  unfolding answered
  answered-Shrinks buf end (ok (some q), s) p = tt
  answered-Shrinks buf end (ok none, s) p = advance-Shrinks s buf end p
  answered-Shrinks buf end (err f, s) p = tt
  answered-Shrinks buf end (panic, s) p = tt

  -- A header that is read has passed the check.
  abbrev IsChecked : Option (Header × Option Text) → Type 0
  IsChecked none = Unit {0}
  IsChecked (some (h, b)) = check h ≡ true

  read_message-IsChecked : (buf : Text) (e : ℕ) → IsChecked (read_message unmarshal handle buf e)
  unfolding read_message
  read_message-IsChecked buf e = by_header (unmarshal (drop 4 (take e buf)))
    where
      by_header :
          (o : Option Header)
          → IsChecked (elim o [
            | none ↦ none
            | some h ↦ if check h then some (h, message_data buf e h) else none
          ])
      by_header none = tt
      by_header (some h) = elim (Bool-cases (check h)) [ inl f ↦ rw f f | inr f ↦ rw f tt ]

  IsPast-weaken : (m n : ℕ) (z : ℤ) → m ≤ n → IsPast n z → IsPast m z
  IsPast-weaken m n (pos f) h p = omega arith
  IsPast-weaken m n (negsuc k) h p = tt

  handled-Shrinks :
      (s : S) (buf : Text) (e : ℕ) (m : Option (Header × Option Text))
      → header_min_len + 4 ≤ e
      → IsChecked m
      → Shrinks (length buf) (handled unmarshal handle s buf e m)
  unfolding handled
  handled-Shrinks s buf e none l c = tt
  handled-Shrinks s buf e (some (h, none)) l c = tt
  handled-Shrinks s buf e (some (h, some b)) l c =
      answered-Shrinks buf (data_end e h.data_len) (handle e h b s)
        (IsPast-weaken 12 e (data_end e h.data_len) l (data_end-IsPast e h c))

  headed-Shrinks :
      (s : S) (buf : Text) (e : ℕ) → Shrinks (length buf) (headed unmarshal handle s buf e)
  unfolding headed
  headed-Shrinks s buf e = elim (Bool-cases (ltb e 12)) [
    | inl f ↦ rw f tt
    | inr f ↦ rw f (elim (Bool-cases (ltb (length buf) e)) [
      | inl g ↦ rw g tt
      | inr g ↦ rw g (
          handled-Shrinks s buf e (read_message unmarshal handle buf e) (ground (arith, f))
            (read_message-IsChecked buf e))
    ])
  ]

  step-Shrinks : (s : S) (buf : Text) (e : ℕ) → Shrinks (length buf) (step unmarshal handle s buf e)
  unfolding step
  step-Shrinks s buf e = elim (Bool-cases (ltb (length buf) 12)) [
    | inl f ↦ rw f tt
    | inr f ↦ rw f (headed-Shrinks s buf (header_end buf e))
  ]

  -- The loop is over.
  abbrev IsOver : Option (Step S) → Type 0
  IsOver none = ⊥
  IsOver (some (again s b)) = ⊥
  IsOver (some _) = Unit {0}

  parse-IsOver :
      (k : ℕ) (s : S) (buf : Text) (e : ℕ)
      → length buf < k
      → IsOver (parse unmarshal handle k s buf e)
  parse-IsOver zero s buf e h = absurd (omega arith)
  parse-IsOver (suc k) s buf e h =
      rw (parse-suc unmarshal handle k s buf e)
        (over (step unmarshal handle s buf e) (step-Shrinks s buf e) (parse-IsOver k))
    where
      over :
          (x : Step S)
          → Shrinks (length buf) x
          → ((s' : S) (b : Text) (e' : ℕ)
              → length b < k
              → IsOver (parse unmarshal handle k s' b e'))
          → IsOver (after unmarshal handle k x)
      over (waits s' b e') p next = tt
      over (quits s' q) p next = tt
      over panics p next = tt
      over (again s' b) p next = next s' b 0 (omega arith)

  parsed-IsOver : (o : Option (Step S)) → IsOver o → after_parse o ≢ no_fuel
  parsed-IsOver none p h = absurd p
  parsed-IsOver (some (waits s b e)) p h = cc
  parsed-IsOver (some (quits s q)) p h = cc
  parsed-IsOver (some panics) p h = cc
  parsed-IsOver (some (again s b)) p h = absurd p

  -- One more round of the label Parse than the buffer has bytes is enough: after any read, from any
  -- state and with any handler, the loop comes to a wait for more bytes, to the link's end or to a
  -- panic.
  pub read_turn-ne-no_fuel :
      (r : Reader S) (s : S) (buf : Text) (e : ℕ) → read_turn r unmarshal handle s buf e ≢ no_fuel
  unfolding read_turn after_read
  read_turn-ne-no_fuel r s buf e =
      by_read (read_piece (buf_max - length buf) (r.stream_of s).pieces)
    where
      by_read : (x : Read) → after_read r unmarshal handle s buf e x ≢ no_fuel
      by_read broken = λ h. cc
      by_read (got p ps) =
          parsed-IsOver _
            (parse-IsOver (suc (length (buf ++ p))) (r.with_pieces ps s) (buf ++ p) e (omega arith))
