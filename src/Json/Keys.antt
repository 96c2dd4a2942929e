-- ===== src/Json/Keys.antt =====
-- The keys of an object.
use henka.Common.{◌≡◌, refl, none, some, arith, ◌==◌, list_eq, nat_eq, if◌then◌else◌, list_beq_iff}
use henka.Text.{Text}
use henka.Json.{Json, Fields, no_fields, field, get, remove, insert}

pub get-remove : (k j : Text) (m : Fields) → get j (remove k m) ≡ (if k == j then none else get j m)
unfolding get remove
get-remove k j no_fields = ground arith
get-remove k j (field i v m) =
    ground (arith, get-remove k j m, list_beq_iff i k, list_beq_iff i j, list_beq_iff k j)

pub get-insert :
    (k j : Text) (v : Json) (m : Fields)
    → get j (insert k v m) ≡ (if k == j then some v else get j m)
unfolding get insert
get-insert k j v no_fields = refl
get-insert k j v (field i w m) =
    ground (arith, get-insert k j v m, list_beq_iff i k, list_beq_iff i j, list_beq_iff k j)
