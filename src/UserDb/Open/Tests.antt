-- ===== src/UserDb/Open/Tests.antt =====
-- The theorems on saves and crashes at a user with an alias and at a group named like a temporary file.
use mnm.Prelude.{
  ◌≡◌, refl, true, false, none, some, [], ◌∷◌, Text, text, take, eq_text, inl, arith, ◌∙◌,
}
use mnm.UserDb.Model.{Object, a_user, a_group, user, group, type_of, zero_user, zero_group}
use mnm.UserDb.Disk.{Disk, run}
use mnm.UserDb.Names.{file_name, escape, file_temp, has_suffix, tmp_suffix}
use mnm.UserDb.Record.{put_actions}
use mnm.UserDb.Open.{keys}
use mnm.UserDb.Open.Outcome.{SameData}
use mnm.UserDb.Open.Save
use mnm.UserDb.Open.Save.{put_saves}
use mnm.UserDb.Open.Crash.{OpensWith, Outcome, crash_recovery, tmp_name_lost}

abbrev empty_disk : Disk
empty_disk = record { temp = []; users = []; groups = []; links = [] }

abbrev carol : Object
carol = a_user (record zero_user {
  aliases =
      record {
        en = text "carol";
        nat = [];
        en_defunct = false;
        nat_defunct = false;
        en_touched = true;
        nat_touched = false;
      }
      ∷ [];
})

abbrev club : Object
club = a_group zero_group

-- The directories after the third call of a save.
abbrev stopped : Object → Text → Disk
stopped o n = record empty_disk { temp = Save.two o n }

stopped_at_three :
    (o : Object) (n : Text)
    → run (take 3 (put_actions (type_of o) n o)) empty_disk ≡ some (stopped o n)
stopped_at_three o n = Save.run-start o n [] empty_disk ∙ (unfold run in refl)

plain_name : has_suffix (file_temp user (text "C")) tmp_suffix ≡ false
unfolding has_suffix file_temp eq_text file_name
plain_name = refl

crash_recovery_example :
    OpensWith
      (λ kind n' d. none)
      (Outcome carol (text "C") 3 empty_disk)
      (keys (Save.two carol (text "C")))
      (stopped carol (text "C"))
crash_recovery_example =
    crash_recovery (λ kind n' d. none) carol (text "C") 3 empty_disk (stopped carol (text "C"))
      (keys (Save.two carol (text "C"))) (omega arith, tt) plain_name refl
      (stopped_at_three carol (text "C")) (inl refl)

tmp_name : has_suffix (file_temp group (text "g.tmp")) tmp_suffix ≡ true
unfolding has_suffix file_temp eq_text file_name escape
tmp_name = refl

tmp_name_lost_example :
    OpensWith
      (λ kind n' d. none)
      (λ d. SameData d empty_disk)
      (keys (Save.two club (text "g.tmp")))
      (stopped club (text "g.tmp"))
tmp_name_lost_example =
    tmp_name_lost (λ kind n' d. none) club (text "g.tmp") empty_disk (stopped club (text "g.tmp"))
      (keys (Save.two club (text "g.tmp"))) tmp_name refl (stopped_at_three club (text "g.tmp"))
      (inl refl)
