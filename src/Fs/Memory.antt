-- ===== src/Fs/Memory.antt =====
-- A file system in memory: a list of files, in which two paths name one file only if they are
-- equal. It keeps the promises of `WritesFiles`.
use henka.Common.{
  ◌≡◌, ◌≢◌, ◌∷◌, Option, none, some, arith, list_eq, nat_eq, beq_refl, list_beq_iff, ap,
}
use henka.Common.BTreeMap.{BTreeMap, lookup, remove}
use henka.Text.{Text}
use henka.FilePath.{FilePath, component_eq, is_some}
use henka.Error.{not_found}
use henka.Fs.{IoResult, done, failed, FileSystem, WritesFiles}

abbrev pub Files : Type 0
Files = BTreeMap FilePath Text

abbrev read_of : Option Text → IoResult Text
read_of none = failed not_found
read_of (some t) = done t

abbrev moved : FilePath → FilePath → Files → Option Text → IoResult (Unit {0}) × Files
moved p q s none = (failed not_found, s)
moved p q s (some t) = (done tt, (q, t) ∷ remove p s)

abbrev pub memory : FileSystem
memory = record {
  State = Files;
  read_to_string = λ s p. read_of (lookup p s);
  exists = λ s p. is_some (lookup p s);
  is_dir = λ s p. is_some (lookup p s);
  canonicalize = λ s p. done p;
  write = λ s p t. (done tt, (p, t) ∷ s);
  create_dir_all = λ s p. (done tt, s);
  rename = λ s p q. moved p q s (lookup p s);
  remove_file = λ s p. (done tt, remove p s);
}

lookup-front : (s : Files) (p : FilePath) (t : Text) → lookup p ((p, t) ∷ s) ≡ some t
unfolding lookup
lookup-front s p t = rw (beq_refl p)

pub lookup-behind :
    (s : Files) (p q : FilePath) (t : Text) → p ≢ q → lookup q ((p, t) ∷ s) ≡ lookup q s
unfolding lookup
lookup-behind s p q t h = ground (arith, list_beq_iff p q)

abbrev state_of : IoResult (Unit {0}) × Files → Files
state_of r = r.1

pub memory_writes : WritesFiles memory (λ p q. p ≢ q)
memory_writes = record {
  read-write_self = λ s s' p t e.
      let e' : (p, t) ∷ s ≡ s' = ap state_of e in rw (← e') (ap read_of (lookup-front s p t));
  read-write_ne = λ s s' p q t d e.
      let e' : (p, t) ∷ s ≡ s' = ap state_of e in rw (← e') (ap read_of (lookup-behind s p q t d));
}
