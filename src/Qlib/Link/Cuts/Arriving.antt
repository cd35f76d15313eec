-- ===== src/Qlib/Link/Cuts/Arriving.antt =====
-- One message whose bytes are in the buffer in part.
use mnm.Prelude.{
  ℕ, zero, suc, ◌+◌, ◌-◌, ◌<◌, ◌≤◌, ◌≡◌, ◌⊎◌, ap, sym, inl, inr, refl, true, false, Option, some,
  [], ◌∷◌, ◌++◌, Text, length, take, drop, ltb, arith, Bool-cases, length-drop, eq_nil_of_length,
}
use mnm.Qlib.Header.{pos, Header}
use mnm.Qlib.Quit.{Quit}
use mnm.Qlib.Op.{Result}
use mnm.Qlib.Frame.{
  hex_length, data_end, message_data, waits, step, headed, handled, answered, read_message,
  header_end,
}
use mnm.Qlib.Frame.Stream.{packed, IsMessage, parse_digits-hex_length}
use mnm.Qlib.Link.Pieces.{prefix-take}

pub take-all : (n : ℕ) (s : Text) → length s ≤ n → take n s ≡ s
take-all zero [] h = refl
take-all zero (b ∷ s) h = absurd (omega arith)
take-all (suc n) [] h = refl
take-all (suc n) (b ∷ s) h = rw (take-all n s (omega arith)) refl

module _ {S : Type 0} (unmarshal : Text → Option Header)
    (handle : ℕ → Header → Text → S → Result (Option Quit) × S) {head : Text} {h : Header}
    {body : Text} (m : IsMessage unmarshal handle head h body) (more buf left : Text)
    (same : buf ++ left ≡ packed head body more) where
  header_end-part :
      (e : ℕ)
      → (e ≡ 0) ⊎ (e ≡ length head + 4)
      → 4 ≤ length buf
      → header_end buf e ≡ length head + 4
  unfolding header_end
  header_end-part e (inl z) h4 =
      let four : take 4 buf ≡ hex_length (length head) =
        prefix-take buf left (hex_length (length head)) (head ++ (body ++ more)) same h4 in
      rw z (rw four (rw (parse_digits-hex_length (length head) m.most) refl))
  header_end-part e (inr z) h4 =
      let one_more : length head + 4 ≡ suc (length head + 3) = omega arith in
      rw z (rw one_more refl)

  module _ (st : S) (e : ℕ) (at : (e ≡ 0) ⊎ (e ≡ length head + 4)) where
    -- Without its header whole a message waits.
    pub step-part :
        length buf < length head + 4
        → (e' : ℕ) × ((e' ≡ 0) ⊎ (e' ≡ length head + 4))
          × (step unmarshal handle st buf e ≡ waits st buf e')
    unfolding step headed
    step-part short = elim (Bool-cases (ltb (length buf) 12)) [
      | inl f ↦ (e, at, rw f refl)
      | inr f ↦
          let least : ltb (length head + 4) 12 ≡ false = ground (arith, m.least) in
          let waiting : ltb (length buf) (length head + 4) ≡ true = ground (arith, short) in
          (
            length head + 4,
            inr refl,
            rw f (rw (header_end-part e at (ground (arith, f))) (rw (least, waiting) refl)),
          )
    ]

    module _ (long : length head + 4 ≤ length buf) (sized : length body < 0x4000000000000000) where
      abbrev pub tail : Text
      tail = drop (length head + 4) buf

      data_end-part :
          data_end (length head + 4) (pos (length body)) ≡ pos (length head + 4 + length body)
      data_end-part = ground (arith, sized, m.most)

      head-part : drop 4 (take (length head + 4) buf) ≡ head
      head-part =
          let four_more : length head + 4 ≡ suc (suc (suc (suc (length head)))) = omega arith in
          let first =
            prefix-take buf left (hex_length (length head) ++ head) (body ++ more) same
              (omega (arith, long)) in
          rw four_more (ap (λ (s : Text). drop 4 s) first)

      message_data-part : message_data buf (length head + 4) h ≡ some (take (length body) tail)
      unfolding message_data
      message_data-part =
          let rest_size = length-drop (length head + 4) buf in
          let uncut : ltb (length buf) (length head + 4) ≡ false = ground (arith, long) in
          rw m.sized (
            rw data_end-part (elim (Bool-cases (ltb (length head + 4) (length buf))) [
              | inl f ↦ rw f (elim (Bool-cases (ltb 0 (length body))) [
                | inl g ↦
                    rw g (elim (Bool-cases (ltb (length buf) (length head + 4 + length body))) [
                      | inl k ↦
                          let one = take-all (length buf - (length head + 4)) tail (omega arith) in
                          let two = take-all (length body) tail (ground (arith, k, rest_size)) in
                          rw k (rw uncut (rw (one, two) refl))
                      | inr k ↦
                          let early : ltb (length head + 4 + length body) (length head + 4)
                              ≡ false =
                            ground arith in
                          let n : length head + 4 + length body - (length head + 4) ≡ length body =
                            omega arith in
                          rw k (rw early (rw n refl))
                    ])
                | inr g ↦ let z : length body ≡ 0 = ground (arith, g) in rw g (rw z refl)
              ])
              | inr f ↦
                  let z : tail ≡ [] = eq_nil_of_length tail (ground (arith, f, rest_size, long)) in
                  rw f (
                    rw z
                      (sym (ap (λ (s : Text). some s) (take-all (length body) [] (omega arith)))))
            ]))

      read_message-part :
          read_message unmarshal handle buf (length head + 4)
          ≡ some (h, some (take (length body) tail))
      unfolding read_message
      read_message-part =
          rw (read_message, head-part) (rw m.read (rw m.checked (rw message_data-part refl)))

      -- With its header whole a message is handled, with the data that are there.
      pub step-whole :
          step unmarshal handle st buf e
          ≡ answered unmarshal handle buf
              (pos (length head + 4 + length body))
              (handle (length head + 4) h (take (length body) tail) st)
      unfolding step headed handled
      step-whole =
          let f1 : ltb (length buf) 12 ≡ false = ground (arith, long, m.least) in
          let f2 : ltb (length head + 4) 12 ≡ false = ground (arith, m.least) in
          let f3 : ltb (length buf) (length head + 4) ≡ false = ground (arith, long) in
          let d : data_end (length head + 4) h.data_len ≡ pos (length head + 4 + length body) =
            rw m.sized data_end-part in
          rw (f1, header_end-part e at (omega (arith, long)))
            (rw (f2, f3) (rw read_message-part (rw d refl)))
