-- ===== src/Qlib/Elastic/Order.antt =====
-- The buffer is in order, and loses and makes up no value.
use mnm.Prelude.{◌+◌, ◌≡◌, true, Option, none, some, List, [], ◌∷◌, ◌++◌, Text, arith, All}
use mnm.Prelude.Order.{
  leb_text, IsSorted, sort_texts-IsSorted, count, count-append, count-sort_texts,
}
use mnm.Qlib.Elastic.{
  Event, arrives, taken, closes, Elastic, open_with, ended, receive, elastic_step, elastic_run,
  elastic_more,
}

-- The values that come in.
abbrev pub arrived : List Event → List Text
arrived [] = []
arrived (arrives s ∷ es) = s ∷ arrived es
arrived (taken ∷ es) = arrived es
arrived (closes ∷ es) = arrived es

abbrev pub left_in : Elastic → List Text
left_in (open_with buf) = buf
left_in ended = []

-- A step from an ordered buffer: the next one is ordered too, all values are accounted for, and a
-- value that is sent comes before or with all that stay.
pub record Steps (buf incoming : List Text) (next : Elastic) (sent : List Text) : Type 0 where
  pub ordered : IsSorted (left_in next)
  pub kept : (z : Text) → count z sent + count z (left_in next) ≡ count z buf + count z incoming
  pub first : All (λ x. All (λ y. leb_text x y ≡ true) (left_in next)) sent

All-nil : (xs : List Text) → All (λ x. All (λ y. leb_text x y ≡ true) []) xs
All-nil [] = tt
All-nil (x ∷ xs) = (tt, All-nil xs)

abbrev pub StepsTo : List Text → List Text → Option (Elastic × List Text) → Type 0
StepsTo buf incoming none = Unit {0}
StepsTo buf incoming (some (next, sent)) = Steps buf incoming next sent

-- Each event on an ordered buffer leaves it ordered, keeps every value, and sends a value that comes
-- before, or with, all those that stay.
pub elastic_step-Steps :
    (buf : List Text) (e : Event)
    → IsSorted buf
    → StepsTo buf (arrived (e ∷ [])) (elastic_step buf e)
unfolding elastic_step receive
elastic_step-Steps buf (arrives s) h = record {
  ordered = sort_texts-IsSorted (buf ++ s ∷ []);
  kept = λ z. omega (arith, count-sort_texts z (buf ++ s ∷ []), count-append z buf (s ∷ []));
  first = tt;
}
elastic_step-Steps [] taken h = tt
elastic_step-Steps (x ∷ buf) taken h = record {
  ordered = h.1;
  kept = λ z. ground arith;
  first = (h.0, tt);
}
elastic_step-Steps buf closes h = record {
  ordered = tt;
  kept = λ z. omega arith;
  first = All-nil buf;
}

-- What a run keeps: as a step does, but for the order of what is sent.
pub record Runs (buf incoming : List Text) (last : Elastic) (sent : List Text) : Type 0 where
  pub ordered : IsSorted (left_in last)
  pub kept : (z : Text) → count z sent + count z (left_in last) ≡ count z buf + count z incoming

abbrev pub RunsTo : List Text → List Text → Option (Elastic × List Text) → Type 0
RunsTo buf incoming none = Unit {0}
RunsTo buf incoming (some (last, sent)) = Runs buf incoming last sent

continue-Runs :
    (buf buf' : List Text) (e : Event) (es : List Event) (sent : List Text)
    (r : Option (Elastic × List Text))
    → Steps buf (arrived (e ∷ [])) (open_with buf') sent
    → RunsTo buf' (arrived es) r
    → RunsTo buf (arrived (e ∷ es)) (elastic_more sent r)
continue-Runs buf buf' e es sent none h g = tt
continue-Runs buf buf' e es sent (some (last, more)) h g = record {
  ordered = g.ordered;
  kept = λ z. omega (arith, h.kept z, g.kept z, count-append z sent more, arrived-cons z e es);
}
  where
    arrived-cons :
        (z : Text) (e : Event) (es : List Event)
        → count z (arrived (e ∷ es)) ≡ count z (arrived (e ∷ [])) + count z (arrived es)
    arrived-cons z (arrives s) es = ground arith
    arrived-cons z taken es = omega arith
    arrived-cons z closes es = omega arith

-- From an ordered buffer, any run: the buffer stays ordered, and what was sent with what is left is
-- what was there with what came in, each value as often; at the end nothing is left.
pub elastic_run-Runs :
    (buf : List Text) (es : List Event)
    → IsSorted buf
    → RunsTo buf (arrived es) (elastic_run buf es)
unfolding elastic_run
elastic_run-Runs buf [] h = record { ordered = h; kept = λ z. omega arith }
elastic_run-Runs buf (arrives s ∷ es) h =
    let step = elastic_step-Steps buf (arrives s) h in
    continue-Runs buf (receive s buf) (arrives s) es [] (elastic_run (receive s buf) es) step
      (elastic_run-Runs (receive s buf) es step.ordered)
elastic_run-Runs [] (taken ∷ es) h = tt
elastic_run-Runs (x ∷ buf) (taken ∷ es) h =
    continue-Runs (x ∷ buf) buf taken es (x ∷ []) (elastic_run buf es)
      (elastic_step-Steps (x ∷ buf) taken h) (elastic_run-Runs buf es h.1)
elastic_run-Runs buf (closes ∷ []) h = record { ordered = tt; kept = λ z. omega arith }
elastic_run-Runs buf (closes ∷ e ∷ es) h = tt
