-- ===== src/Qlib/Header/Bounds.antt =====
-- What a header that passes tHeader.check promises to the code that reads the message.
use mnm.Prelude.{ℕ, ◌≤◌, ◌≡◌, inl, inr, refl, true, false, arith, Bool-cases, leb}
use mnm.Qlib.Header.{
  ℤ, pos, negsuc, Header, header_at, header_defs, bad_lengths, lacks_any, check, op_end,
}

-- A length that is at least the length of the part ahead, which is at least 0.
abbrev pub Holds : ℤ → ℤ → Type 0
Holds len head = (n : ℕ) × (k : ℕ) × (len ≡ pos n) × (head ≡ pos k) × (k ≤ n)

bad_lengths-Holds : (len head : ℤ) → bad_lengths len head ≡ false → Holds len head
bad_lengths-Holds (pos n) (pos k) h = (n, k, refl, refl, ground (arith, h))
bad_lengths-Holds (pos n) (negsuc k) h = ground (arith, h)
bad_lengths-Holds (negsuc n) (pos k) h = ground (arith, h)
bad_lengths-Holds (negsuc n) (negsuc k) h = ground (arith, h)

module _ (h : Header) (c : check h ≡ true) where
  check-op : leb op_end h.op ≡ false
  unfolding check
  check-op = elim (Bool-cases (leb op_end h.op)) [ inl e ↦ ground (arith, c, e) | inr e ↦ e ]

  check-bad_lengths :
      (bad_lengths h.data_len h.data_head ≡ false) × (bad_lengths h.note_len h.note_head ≡ false)
  unfolding check
  check-bad_lengths = ground (arith, c, check-op)

  -- A checked header's lengths are not negative, and its parts ahead are within the data and the note.
  pub check-Holds : Holds h.data_len h.data_head × Holds h.note_len h.note_head
  check-Holds =
      let (a, b) = check-bad_lengths in
      (bad_lengths-Holds h.data_len h.data_head a, bad_lengths-Holds h.note_len h.note_head b)

  check-lacks_any : lacks_any (header_at h.op header_defs) h ≡ false
  unfolding check
  check-lacks_any = ground (arith, c, check-op)
