-- ===== src/Fs/Action.antt =====
-- Code that reads and writes files and may fail: what was written before an error stays written.
use henka.Error.{Result, ok, err, panic, io}
use henka.Fs.{IoResult, done, failed}

abbrev pub Action {ℓ} : Type 0 → Type ℓ → Type ℓ
Action S A = S → Result A × S

-- `?` on an `std::io::Result`
abbrev pub from_io {ℓ} : {A : Type ℓ} → IoResult A → Result A
from_io (done a) = ok a
from_io (failed e) = err (io e)

abbrev pub continue {ℓ κ} :
    {S : Type 0} {A : Type ℓ} {B : Type κ} → Result A → (A → Action S B) → Action S B
continue (ok a) f s = f a s
continue (err e) f s = (err e, s)
continue panic f s = (panic, s)

infixl 5 ◌>>=◌ ◌>>◌
abbrev pub ◌>>=◌ {ℓ κ} :
    {S : Type 0} {A : Type ℓ} {B : Type κ} → Action S A → (A → Action S B) → Action S B
◌>>=◌ m f s = let (r, s') = m s in continue r f s'

abbrev pub ◌>>◌ {ℓ} : {S : Type 0} {B : Type ℓ} → Action S (Unit {0}) → Action S B → Action S B
m >> n = m >>= λ _. n

abbrev pub pure {ℓ} : {S : Type 0} {A : Type ℓ} → A → Action S A
pure a s = (ok a, s)

-- A computation that only reads the state.
abbrev pub reading {ℓ} : {S : Type 0} {A : Type ℓ} → (S → Result A) → Action S A
reading f s = (f s, s)

abbrev pub doing : {S : Type 0} {A : Type 0} → (S → IoResult A × S) → Action S A
doing f s = let (r, s') = f s in (from_io r, s')
