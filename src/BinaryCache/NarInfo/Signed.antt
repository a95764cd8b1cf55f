-- ===== src/BinaryCache/NarInfo/Signed.antt =====
-- The signatures of a narinfo that `NarInfo::new` makes.
use mathlib.Core.Option
use hydra_queue_runner.BinaryCache.NarInfo.{
  Nix, simple, or_given, new_narinfo, List, StorePath, PathInfo, clear_sigs_and_sign, Text,
  Compression, NarInfo, fingerprint_path, is_nil,
}
use hydra_queue_runner.Base.{
  List, Option, [], ◌≡◌, ◌∷◌, some, map, none, ap, refl, if◌then◌else◌, not,
}
use hydra_queue_runner.NixUtils.StorePath.{StorePath}
use hydra_queue_runner.Base.Text.{Text}
use hydra_queue_runner.BinaryCache.Compression.{Compression}
use Option.{none}

-- The signatures that a narinfo has: those of the keys where there are keys and the narinfo can
-- be signed, and otherwise those that Nix knows.
unfoldable pub signatures : Nix → List Text → PathInfo → Option Text → List Text
signatures nix [] info fp = info.sigs
signatures nix (key ∷ keys) info none = info.sigs
signatures nix (key ∷ keys) info (some fp) = map (λ s. nix.sign_string s fp) (key ∷ keys)

kept :
    (n : NarInfo) (ts : List Text)
    → (if not (is_nil ts) then record n { sigs = ts } else record n { sigs = [] }).sigs ≡ ts
kept n [] = refl
kept n (t ∷ ts) = refl

-- Where signing left no signature, those that Nix knows are taken.
or_given-none :
    (info : PathInfo) (n : NarInfo) → (or_given info (record n { sigs = [] })).sigs ≡ info.sigs
unfolding or_given
or_given-none info n = kept n info.sigs

or_given-some :
    (info : PathInfo) (n : NarInfo) (s : Text) (ss : List Text)
    → (or_given info (record n { sigs = s ∷ ss })).sigs ≡ s ∷ ss
unfolding or_given
or_given-some info n s ss = refl

new_narinfo-of :
    (nix : Nix) (path : StorePath) (info : PathInfo) (c : Compression) (keys : List Text)
    (n : NarInfo)
    → simple nix path info c ≡ some n
    → new_narinfo nix path info c keys ≡ Option.map (or_given info) (clear_sigs_and_sign nix n keys)
unfolding new_narinfo
new_narinfo-of nix path info c keys n h =
    ap
      (λ r. elim r as (λ _. Option NarInfo) [
        | none ↦ none
        | some n' ↦ Option.map (or_given info) (clear_sigs_and_sign nix n' keys)
      ])
      h

signed-of :
    (nix : Nix) (n : NarInfo) (key : Text) (keys : List Text) (fp : Text)
    → fingerprint_path nix n ≡ some (some fp)
    → clear_sigs_and_sign nix n (key ∷ keys)
      ≡ some (record n { sigs = map (λ s. nix.sign_string s fp) (key ∷ keys) })
unfolding clear_sigs_and_sign
signed-of nix n key keys fp g = rw (g, clear_sigs_and_sign) refl

unsigned-of :
    (nix : Nix) (n : NarInfo) (key : Text) (keys : List Text)
    → fingerprint_path nix n ≡ some none
    → clear_sigs_and_sign nix n (key ∷ keys) ≡ some (record n { sigs = [] })
unfolding clear_sigs_and_sign
unsigned-of nix n key keys g = rw (g, clear_sigs_and_sign) refl

-- The signatures of a new narinfo, for any signing keys, where neither the name of the archive
-- nor the fingerprint of the unsigned narinfo panics: `new` returns a narinfo. If there are keys
-- and there is a fingerprint, it has exactly one signature of that fingerprint for each key, in
-- their order, and none of those that Nix knew; otherwise it has exactly those.
pub new_narinfo-sigs :
    (nix : Nix) (path : StorePath) (info : PathInfo) (c : Compression) (keys : List Text)
    (n : NarInfo) (fp : Option Text)
    → simple nix path info c ≡ some n
    → fingerprint_path nix n ≡ some fp
    → Option.map (λ m. m.sigs) (new_narinfo nix path info c keys)
      ≡ some (signatures nix keys info fp)
unfolding signatures clear_sigs_and_sign
new_narinfo-sigs nix path info c [] n fp h g =
    rw (new_narinfo-of nix path info c [] n h) (ap some (or_given-none info n))
new_narinfo-sigs nix path info c (key ∷ keys) n none h g =
    rw (new_narinfo-of nix path info c (key ∷ keys) n h, unsigned-of nix n key keys g)
      (ap some (or_given-none info n))
new_narinfo-sigs nix path info c (key ∷ keys) n (some fp) h g =
    rw (new_narinfo-of nix path info c (key ∷ keys) n h, signed-of nix n key keys fp g)
      (ap some (or_given-some info n _ _))
