-- ===== src/BinaryCache/NarInfo/Parse.antt =====
-- `NarInfo::from_str` of crates/binary-cache/src/narinfo.rs, with the operations of `str` that it
-- uses. The reason of an error is left out where it is one text.
use mathlib.Core.Option
use hydra_queue_runner.Base.{
  ◌⊎◌, Bool, false, ℕ, List, [], ◌∷◌, Option, true, inr, inl, if◌then◌else◌, none, some, unwrap_or,
  not, ◌==◌, ◌*◌, ◌+◌, suc, map, ◌++◌, ◌-◌, leb, ◌&&◌, ltb,
}
use hydra_queue_runner.Base.Text.{Text, strip_prefix, text_eq, codes}
use hydra_queue_runner.NixUtils.StorePath.{StorePath, new_store_path}
use hydra_queue_runner.BinaryCache.Compression.{
  space_len, Compression, parse_compression, trim, trim_end, no_compression, spaces,
}
use hydra_queue_runner.BinaryCache.NarInfo.{NarInfo}
use Prim.Native.Nat.{zero}
use hydra_queue_runner.Base.Words.{two_64}

pub data IntError : Type 0 where
  int_empty invalid_digit pos_overflow : IntError

pub data NarInfoError : Type 0 where
  missing_field : Text → NarInfoError
  invalid_field : Text → Text → NarInfoError
  bad_line : ℕ → NarInfoError
  bad_int : Text → IntError → NarInfoError

abbrev pub Parsed : Type 0 → Type 0
Parsed A = NarInfoError ⊎ A

-- Which of the required keys were present.
pub record Seen : Type 0 where
  pub store_path : Bool
  pub url : Bool
  pub compression : Bool
  pub nar_hash : Bool
  pub nar_size : Bool

abbrev pub unseen : Seen
unseen = record {
  store_path = false;
  url = false;
  compression = false;
  nar_hash = false;
  nar_size = false;
}

abbrev pub blank : StorePath → NarInfo
blank p = record {
  store_path = p;
  url = [];
  compression = no_compression;
  file_hash = none;
  file_size = none;
  nar_hash = [];
  nar_size = 0;
  references = [];
  deriver = none;
  ca = none;
  sigs = [];
}

-- A line loses the `\r` before its `\n`.
unfoldable pub strip_cr : Text → Text
strip_cr [] = []
strip_cr (c ∷ []) = if c == 13 then [] else c ∷ []
strip_cr (c ∷ d ∷ s) = c ∷ strip_cr (d ∷ s)

-- `str::lines`, behind the part of a line; there is no empty line behind the last `\n`.
unfoldable pub lines_from : Text → Text → List Text
unfolding strip_cr
lines_from [] [] = []
lines_from (a ∷ part) [] = (a ∷ part) ∷ []
lines_from part (c ∷ s) =
    if c == 10 then strip_cr part ∷ lines_from [] s else lines_from (part ++ c ∷ []) s

-- `str::split_once` for one byte.
unfoldable pub split_once : ℕ → Text → Option (Text × Text)
split_once c [] = none
split_once c (a ∷ s) =
    let rest = split_once c s in
    if a == c then some ([], s) else Option.map (λ kv. (a ∷ kv.0, kv.1)) rest

abbrev is_nil_word : Text → Bool
is_nil_word [] = true
is_nil_word (_ ∷ _) = false

-- The words that `str::split_whitespace` returns, behind the part of a word and the bytes of a
-- white space that are left.
unfoldable pub words_from : ℕ → Text → Text → List Text
unfolding space_len
words_from k [] [] = []
words_from k (a ∷ word) [] = (a ∷ word) ∷ []
words_from (suc k) word (c ∷ s) = words_from k word s
words_from zero word (c ∷ s) =
    let n = space_len spaces (c ∷ s) in
    let rest = words_from (n - 1) [] s in
    if n == 0
    then words_from 0 (word ++ c ∷ []) s
    else if is_nil_word word
    then rest
    else word ∷ rest

unfoldable pub parse_digits : ℕ → Text → (IntError ⊎ ℕ)
parse_digits acc [] = inr acc
parse_digits acc (c ∷ s) =
    let acc' = acc * 10 + (c - 48) in
    let rest = parse_digits acc' s in
    if not (leb 48 c && leb c 57)
    then inl invalid_digit
    else if ltb acc' two_64
    then rest
    else inl pos_overflow

-- `str::parse::<u64>`
unfoldable pub parse_u64 : Text → (IntError ⊎ ℕ)
unfolding parse_digits
parse_u64 [] = inl int_empty
parse_u64 (c ∷ []) = parse_digits 0 (c ∷ [])
parse_u64 (c ∷ d ∷ s) = if c == b'+' then parse_digits 0 (d ∷ s) else parse_digits 0 (c ∷ d ∷ s)

unfoldable pub int_field : Text → Text → Parsed ℕ
unfolding parse_u64
int_field field s = elim (parse_u64 s) [ inl e ↦ inl (bad_int field e) | inr n ↦ inr n ]

abbrev pub State : Type 0
State = NarInfo × Seen

unfoldable pub set_compression : (Compression ⊎ Text) → State → Parsed State
set_compression (inl c) (out, have) =
    inr (record out { compression = c }, record have { compression = true })
set_compression (inr e) s = inl (invalid_field (codes "Compression") e)

unfoldable pub set_file_size : Parsed ℕ → State → Parsed State
set_file_size (inl e) s = inl e
set_file_size (inr n) (out, have) = inr (record out { file_size = some n }, have)

unfoldable pub set_nar_size : Parsed ℕ → State → Parsed State
set_nar_size (inl e) s = inl e
set_nar_size (inr n) (out, have) =
    inr (record out { nar_size = n }, record have { nar_size = true })

abbrev pub non_empty : Text → Option Text
non_empty [] = none
non_empty (c ∷ s) = some (c ∷ s)

abbrev pub push_sig : List Text → Option Text → List Text
push_sig sigs none = sigs
push_sig sigs (some s) = sigs ++ s ∷ []

-- The arms of `match key`.
unfoldable pub set_field : Text → Text → Text → State → Parsed State
unfolding set_compression set_file_size set_nar_size parse_compression int_field words_from
    new_store_path text_eq
set_field store_dir key val (out, have) =
    if text_eq key (codes "StorePath")
    then inr (
      record out { store_path = new_store_path store_dir val },
      record have { store_path = true },
    )
    else if text_eq key (codes "URL")
    then inr (record out { url = val }, record have { url = true })
    else if text_eq key (codes "Compression")
    then set_compression (parse_compression val) (out, have)
    else if text_eq key (codes "FileHash")
    then inr (record out { file_hash = some val }, have)
    else if text_eq key (codes "FileSize")
    then set_file_size (int_field (codes "FileSize") val) (out, have)
    else if text_eq key (codes "NarHash")
    then inr (record out { nar_hash = val }, record have { nar_hash = true })
    else if text_eq key (codes "NarSize")
    then set_nar_size (int_field (codes "NarSize") val) (out, have)
    else if text_eq key (codes "References")
    then inr
        (record out { references = map (new_store_path store_dir) (words_from 0 [] val) }, have)
    else if text_eq key (codes "Deriver")
    then inr (record out { deriver = Option.map (new_store_path store_dir) (non_empty val) }, have)
    else if text_eq key (codes "CA")
    then inr (record out { ca = non_empty val }, have)
    else if text_eq key (codes "Sig")
    then inr (record out { sigs = push_sig out.sigs (non_empty val) }, have)
    else inr (out, have)

-- A line that is skipped: an empty one, or one that begins with `#`.
unfoldable pub is_skipped : Text → Bool
is_skipped [] = true
is_skipped (c ∷ s) = c == b'#'

-- The value behind the colon: without one space in front, and without those at its end.
unfoldable pub value_of : Text → Text
unfolding strip_prefix trim_end
value_of v = trim_end (unwrap_or (strip_prefix (codes " ") v) v)

-- One round of the loop, for the line with this number.
unfoldable pub parse_line : Text → ℕ → Text → State → Parsed State
unfolding is_skipped value_of split_once trim set_field
parse_line store_dir line_no raw_line s =
    let line = trim raw_line in
    let field = elim (split_once b':' line) as (λ _. Parsed State) [
      | none ↦ inl (bad_line line_no)
      | some (k, v) ↦ set_field store_dir (trim k) (value_of v) s
    ] in
    if is_skipped line then inr s else field

unfoldable pub parse_lines : Text → ℕ → List Text → State → Parsed State
unfolding parse_line
parse_lines store_dir idx [] s = inr s
parse_lines store_dir idx (l ∷ ls) s = elim (parse_line store_dir (idx + 1) l s) [
  | inl e ↦ inl e
  | inr s' ↦ parse_lines store_dir (idx + 1) ls s'
]

unfoldable pub check_required : State → Parsed NarInfo
check_required (out, have) =
    if not have.store_path
    then inl (missing_field (codes "StorePath"))
    else if not have.url
    then inl (missing_field (codes "URL"))
    else if not have.compression
    then inl (missing_field (codes "Compression"))
    else if not have.nar_hash
    then inl (missing_field (codes "NarHash"))
    else if not have.nar_size
    then inl (missing_field (codes "NarSize"))
    else inr out

unfoldable pub from_str : Text → Text → Parsed NarInfo
unfolding check_required parse_lines lines_from new_store_path
from_str store_dir input =
    let first = blank (new_store_path store_dir (codes "aaaaaaaaaaaaaaaaaaaaaaaaaaaaaaaa-bla")) in
    elim (parse_lines store_dir 0 (lines_from [] input) (first, unseen)) [
      | inl e ↦ inl e
      | inr s ↦ check_required s
    ]
