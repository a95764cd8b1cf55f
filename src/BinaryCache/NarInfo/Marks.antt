-- ===== src/BinaryCache/NarInfo/Marks.antt =====
-- What the arms of `match key` in `NarInfo::from_str` mark as present.
use mathlib.Core.Option
use mathlib.Core.Sum.{inr-injective, inl-ne-inr}
use hydra_queue_runner.Base.{none, some, ℕ, map, []}
use hydra_queue_runner.Base.Text.{Text, codes, text_eq}
use hydra_queue_runner.BinaryCache.NarInfo.Parse.{
  Seen, is_skipped, split_once, State, Parsed, NarInfoError, set_compression, set_nar_size,
  set_file_size, set_field, int_field, words_from, non_empty, push_sig,
}
use hydra_queue_runner.Base.{
  Bool, ◌≡◌, inr, not, true, ◌&&◌, ◌⊎◌, inl, if◌then◌else◌, subst, sym, refl,
}
use hydra_queue_runner.BinaryCache.Compression.{trim, Compression, parse_compression}
use hydra_queue_runner.BinaryCache.NarInfo.{NarInfo}
use mathlib.Core.Bool.{false}
use hydra_queue_runner.NixUtils.StorePath.{new_store_path}

pub data Required : Type 0 where
  needs_store_path needs_url needs_compression needs_nar_hash needs_nar_size : Required

abbrev pub key_of : Required → Text
key_of needs_store_path = codes "StorePath"
key_of needs_url = codes "URL"
key_of needs_compression = codes "Compression"
key_of needs_nar_hash = codes "NarHash"
key_of needs_nar_size = codes "NarSize"

abbrev pub flag : Required → Seen → Bool
flag needs_store_path have = have.store_path
flag needs_url have = have.url
flag needs_compression have = have.compression
flag needs_nar_hash have = have.nar_hash
flag needs_nar_size have = have.nar_size

-- Whether a line that is not skipped has the key.
unfoldable pub has_key : Text → Text → Bool
unfolding is_skipped split_once trim text_eq
has_key key raw_line =
    not (is_skipped (trim raw_line))
    && elim (split_once b':' (trim raw_line)) [ none ↦ false | some kv ↦ text_eq (trim kv.0) key ]

-- What a result of an arm of `match key` may mark: only the arm's own key.
unfoldable pub MarksOwn : Text → Seen → Required → Parsed State → Type 0
MarksOwn key have r x =
    (s' : State)
    → x ≡ inr s'
    → flag r s'.1 ≡ true
    → (flag r have ≡ true) ⊎ (text_eq key (key_of r) ≡ true)

arm :
    (key : Text) (have : Seen) (r : Required) (b : Bool) (x y : Parsed State)
    → (b ≡ true → MarksOwn key have r x)
    → MarksOwn key have r y
    → MarksOwn key have r (if b then x else y)
arm key have r true x y f g = f refl
arm key have r false x y f g = g

pub same_flag :
    (r : Required) (s s' : State)
    → Path (Parsed State) (inr s) (inr s')
    → flag r s'.1 ≡ true
    → flag r s.1 ≡ true
same_flag r s s' e h = subst (λ x. flag r x.1 ≡ true) (sym (inr-injective _ _ e)) h

-- An arm that marks nothing.
marks_none :
    (key : Text) (have : Seen) (r : Required) (out : NarInfo)
    → MarksOwn key have r (inr (out, have))
unfolding MarksOwn
marks_none key have r out s' e h = inl (same_flag r (out, have) s' e h)

marks_store_path :
    (key : Text) (have : Seen) (r : Required) (out : NarInfo)
    → text_eq key (codes "StorePath") ≡ true
    → MarksOwn key have r (inr (out, record have { store_path = true }))
unfolding MarksOwn
marks_store_path key have needs_store_path out t s' e h = inr t
marks_store_path key have r out t s' e h =
    inl (same_flag r (out, record have { store_path = true }) s' e h)

marks_url :
    (key : Text) (have : Seen) (r : Required) (out : NarInfo)
    → text_eq key (codes "URL") ≡ true
    → MarksOwn key have r (inr (out, record have { url = true }))
unfolding MarksOwn
marks_url key have needs_url out t s' e h = inr t
marks_url key have r out t s' e h = inl (same_flag r (out, record have { url = true }) s' e h)

marks_compression :
    (key : Text) (have : Seen) (r : Required) (out : NarInfo)
    → text_eq key (codes "Compression") ≡ true
    → MarksOwn key have r (inr (out, record have { compression = true }))
unfolding MarksOwn
marks_compression key have needs_compression out t s' e h = inr t
marks_compression key have r out t s' e h =
    inl (same_flag r (out, record have { compression = true }) s' e h)

marks_nar_hash :
    (key : Text) (have : Seen) (r : Required) (out : NarInfo)
    → text_eq key (codes "NarHash") ≡ true
    → MarksOwn key have r (inr (out, record have { nar_hash = true }))
unfolding MarksOwn
marks_nar_hash key have needs_nar_hash out t s' e h = inr t
marks_nar_hash key have r out t s' e h =
    inl (same_flag r (out, record have { nar_hash = true }) s' e h)

marks_nar_size :
    (key : Text) (have : Seen) (r : Required) (out : NarInfo)
    → text_eq key (codes "NarSize") ≡ true
    → MarksOwn key have r (inr (out, record have { nar_size = true }))
unfolding MarksOwn
marks_nar_size key have needs_nar_size out t s' e h = inr t
marks_nar_size key have r out t s' e h =
    inl (same_flag r (out, record have { nar_size = true }) s' e h)

fails : (key : Text) (have : Seen) (r : Required) (e : NarInfoError) → MarksOwn key have r (inl e)
unfolding MarksOwn
fails key have r e s' same h = inr (absurd (inl-ne-inr same))

compression_marks :
    (key : Text) (have : Seen) (r : Required) (out : NarInfo) (c : Compression ⊎ Text)
    → text_eq key (codes "Compression") ≡ true
    → MarksOwn key have r (set_compression c (out, have))
unfolding set_compression
compression_marks key have r out (inl c) t = marks_compression key have r _ t
compression_marks key have r out (inr e) t = fails key have r _

nar_size_marks :
    (key : Text) (have : Seen) (r : Required) (out : NarInfo) (n : Parsed ℕ)
    → text_eq key (codes "NarSize") ≡ true
    → MarksOwn key have r (set_nar_size n (out, have))
unfolding set_nar_size
nar_size_marks key have r out (inl e) t = fails key have r e
nar_size_marks key have r out (inr n) t = marks_nar_size key have r _ t

file_size_marks :
    (key : Text) (have : Seen) (r : Required) (out : NarInfo) (n : Parsed ℕ)
    → MarksOwn key have r (set_file_size n (out, have))
unfolding set_file_size
file_size_marks key have r out (inl e) = fails key have r e
file_size_marks key have r out (inr n) = marks_none key have r _

pub set_field_marks :
    (dir key val : Text) (out : NarInfo) (have : Seen) (r : Required)
    → MarksOwn key have r (set_field dir key val (out, have))
unfolding set_field
set_field_marks dir key val out have r =
    arm key have r (text_eq key (codes "StorePath")) _ _
      (marks_store_path key have r (record out { store_path = new_store_path dir val }))
      (arm key have r (text_eq key (codes "URL")) _ _
        (marks_url key have r (record out { url = val }))
        (arm key have r (text_eq key (codes "Compression")) _ _
          (compression_marks key have r out (parse_compression val))
          (arm key have r (text_eq key (codes "FileHash")) _ _
            (λ _. marks_none key have r (record out { file_hash = some val }))
            (arm key have r (text_eq key (codes "FileSize")) _ _
              (λ _. file_size_marks key have r out (int_field (codes "FileSize") val))
              (arm key have r (text_eq key (codes "NarHash")) _ _
                (marks_nar_hash key have r (record out { nar_hash = val }))
                (arm key have r (text_eq key (codes "NarSize")) _ _
                  (nar_size_marks key have r out (int_field (codes "NarSize") val))
                  (arm key have r (text_eq key (codes "References")) _ _
                    (λ _.
                      marks_none key have r (record out {
                        references = map (new_store_path dir) (words_from 0 [] val);
                      }))
                    (arm key have r (text_eq key (codes "Deriver")) _ _
                      (λ _.
                        marks_none key have r (record out {
                          deriver = Option.map (new_store_path dir) (non_empty val);
                        }))
                      (arm key have r (text_eq key (codes "CA")) _ _
                        (λ _. marks_none key have r (record out { ca = non_empty val }))
                        (arm key have r (text_eq key (codes "Sig")) _ _
                          (λ _.
                            marks_none key have r
                              (record out { sigs = push_sig out.sigs (non_empty val) }))
                          (marks_none key have r out)))))))))))
