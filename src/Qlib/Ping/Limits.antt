-- ===== src/Qlib/Ping/Limits.antt =====
-- What _checkPing lets pass: data of the length that the header has, of 140 UTF-16 units at most.
use mnm.Prelude.{ℕ, ◌<◌, ◌≤◌, ◌≡◌, some, List, [], ◌∷◌, ◌++◌, Text, length}
use mnm.Qlib.Stream.{Stream}
use mnm.Qlib.Ping.{Filled, full, cut_off, Checked, passes, refuses, crashes, utf16_len}

-- The pieces as one.
abbrev pub joined : List Text → Text
joined [] = []
joined (p ∷ ps) = p ++ joined ps

-- The reads give the data whole and lose nothing of the stream, or the stream was too short.
abbrev pub Fills : ℕ → Text → Filled → Type 0
Fills n all_bytes (full b left) = (length b ≡ n) × (b ++ joined left ≡ all_bytes)
Fills n all_bytes (cut_off q) = length all_bytes < n

-- What passes: the data whole, with what is left of the stream, in at most 420 bytes that have at
-- most 140 UTF-16 units.
abbrev pub PassesOf : ℕ → Text → Checked → Type 0
PassesOf n all_bytes (passes b left) =
    (length b ≡ n)
    × (n ≤ 420)
    × (b ++ joined left ≡ all_bytes)
    × ((u : ℕ) × (utf16_len (length b) 0 b ≡ some u) × (u ≤ 140))
PassesOf n all_bytes (refuses q) = Unit {0}
PassesOf n all_bytes crashes = Unit {0}
