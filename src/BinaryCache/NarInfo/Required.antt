-- ===== src/BinaryCache/NarInfo/Required.antt =====
-- What a narinfo must say to be read by `NarInfo::from_str`.
use mathlib.Core.Sum.{inl-ne-inr}
use hydra_queue_runner.Base.{none, some, ℕ, [], List, arith, any, ◌∷◌, Option, ◌+◌}
use hydra_queue_runner.Base.Text.{Text, codes, text_eq}
use hydra_queue_runner.BinaryCache.NarInfo.Parse.{
  Seen, is_skipped, split_once, State, Parsed, set_field, parse_line, parse_lines, check_required,
  unseen, from_str, lines_from, blank, bad_line, value_of,
}
use hydra_queue_runner.Base.{Bool, ◌≡◌, inr, not, true, ◌&&◌, ◌⊎◌, inl, if◌then◌else◌, refl}
use hydra_queue_runner.BinaryCache.Compression.{trim}
use hydra_queue_runner.BinaryCache.NarInfo.{NarInfo}
use mathlib.Core.Bool.{false}
use hydra_queue_runner.NixUtils.StorePath.{new_store_path}
use hydra_queue_runner.BinaryCache.NarInfo.Marks.{
  MarksOwn, has_key, Required, flag, key_of, same_flag, needs_store_path, set_field_marks,
  needs_url, needs_compression, needs_nar_hash, needs_nar_size,
}

-- The last step of a round, for any answer of the test and any split of the line.
round_marks :
    (dir : Text) (n : ℕ) (skipped : Bool) (split : Option (Text × Text)) (out : NarInfo)
    (have : Seen) (r : Required) (s' : State)
    → Path
        (Parsed State)
        (if skipped then inr (out, have) else elim split as (λ _. Parsed State) [
          | none ↦ inl (bad_line n)
          | some kv ↦ set_field dir (trim kv.0) (value_of kv.1) (out, have)
        ])
        (inr s')
    → flag r s'.1 ≡ true
    → (flag r have ≡ true)
      ⊎ ((not skipped && elim split [ none ↦ false | some kv ↦ text_eq (trim kv.0) (key_of r) ])
          ≡ true)
unfolding MarksOwn
round_marks dir n true split out have r s' e h = inl (same_flag r (out, have) s' e h)
round_marks dir n false none out have r s' e h = absurd (inl-ne-inr e)
round_marks dir n false (some kv) out have r s' e h =
    set_field_marks dir (trim kv.0) (value_of kv.1) out have r s' e h

-- One round marks only the key of its line.
parse_line_marks :
    (dir : Text) (n : ℕ) (line : Text) (out : NarInfo) (have : Seen) (r : Required) (s' : State)
    → parse_line dir n line (out, have) ≡ inr s'
    → flag r s'.1 ≡ true
    → (flag r have ≡ true) ⊎ (has_key (key_of r) line ≡ true)
unfolding parse_line has_key
parse_line_marks dir n line out have r s' e h =
    round_marks dir n (is_skipped (trim line)) (split_once b':' (trim line)) out have r s' e h

-- The rest of the loop, behind the answer of a round.
rest_marks :
    (dir : Text) (n : ℕ) (l : Text) (ls : List Text) (s : State) (r : Required) (s' : State)
    (x : Parsed State)
    → ((s'' : State)
        → parse_lines dir (n + 1) ls s'' ≡ inr s'
        → flag r s'.1 ≡ true
        → (flag r s''.1 ≡ true) ⊎ (any (has_key (key_of r)) ls ≡ true))
    → parse_line dir (n + 1) l s ≡ x
    → Path
        (Parsed State)
        (elim x as (λ _. Parsed State) [ inl e ↦ inl e | inr s'' ↦ parse_lines dir (n + 1) ls s'' ])
        (inr s')
    → flag r s'.1 ≡ true
    → (flag r s.1 ≡ true) ⊎ (any (has_key (key_of r)) (l ∷ ls) ≡ true)
rest_marks dir n l ls s r s' (inl bad) below first e h = absurd (inl-ne-inr e)
rest_marks dir n l ls s r s' (inr s'') below first e h = elim (below s'' e h) [
  | inr later ↦ inr (ground (arith, later))
  | inl marked ↦ elim (parse_line_marks dir (n + 1) l s.0 s.1 r s'' first marked) [
    | inl before ↦ inl before
    | inr here ↦ inr (ground (arith, here))
  ]
]

parse_lines_marks :
    (dir : Text) (n : ℕ) (ls : List Text) (s : State) (r : Required) (s' : State)
    → parse_lines dir n ls s ≡ inr s'
    → flag r s'.1 ≡ true
    → (flag r s.1 ≡ true) ⊎ (any (has_key (key_of r)) ls ≡ true)
unfolding parse_lines
parse_lines_marks dir n [] s r s' e h = inl (same_flag r s s' e h)
parse_lines_marks dir n (l ∷ ls) s r s' e h =
    rest_marks dir n l ls s r s' (parse_line dir (n + 1) l s)
      (λ s''. parse_lines_marks dir (n + 1) ls s'' r s') refl e h

check_required_marks :
    (s : State) (n : NarInfo) (r : Required) → check_required s ≡ inr n → flag r s.1 ≡ true
unfolding check_required
check_required_marks s n needs_store_path e = ground arith
check_required_marks s n needs_url e = ground arith
check_required_marks s n needs_compression e = ground arith
check_required_marks s n needs_nar_hash e = ground arith
check_required_marks s n needs_nar_size e = ground arith

not_unseen : (r : Required) → flag r unseen ≡ true → ⊥
not_unseen needs_store_path h = ground (arith, h)
not_unseen needs_url h = ground (arith, h)
not_unseen needs_compression h = ground (arith, h)
not_unseen needs_nar_hash h = ground (arith, h)
not_unseen needs_nar_size h = ground (arith, h)

-- The check at the end, behind the answer of the loop.
read_marks :
    (dir : Text) (ls : List Text) (first : NarInfo) (n : NarInfo) (r : Required) (x : Parsed State)
    → parse_lines dir 0 ls (first, unseen) ≡ x
    → Path
        (Parsed NarInfo)
        (elim x as (λ _. Parsed NarInfo) [ inl e ↦ inl e | inr s ↦ check_required s ])
        (inr n)
    → any (has_key (key_of r)) ls ≡ true
read_marks dir ls first n r (inl bad) run e = absurd (inl-ne-inr e)
read_marks dir ls first n r (inr s) run e =
    elim (parse_lines_marks dir 0 ls (first, unseen) r s run (check_required_marks s n r e)) [
      | inl marked ↦ absurd (not_unseen r marked)
      | inr found ↦ found
    ]

-- A text that is read as a narinfo has a line for each of the five required keys: one that is
-- not empty and does not begin with `#`, with this key before its first colon.
pub from_str_required :
    (dir input : Text) (n : NarInfo) (r : Required)
    → from_str dir input ≡ inr n
    → any (has_key (key_of r)) (lines_from [] input) ≡ true
unfolding from_str
from_str_required dir input n r e =
    read_marks dir (lines_from [] input)
      (blank (new_store_path dir (codes "aaaaaaaaaaaaaaaaaaaaaaaaaaaaaaaa-bla"))) n r
      (parse_lines dir 0 (lines_from [] input)
        (blank (new_store_path dir (codes "aaaaaaaaaaaaaaaaaaaaaaaaaaaaaaaa-bla")), unseen))
      refl e
