-- ===== src/Json/Laws.antt =====
-- What a key holds after a write, a deletion or a JSON round trip.
use ise2ise.Base.{◌≡◌, String, none, some}
use ise2ise.Base.{arith, ◌==◌, eq_iff, if◌then◌else◌}
use ise2ise.Json.{Value, text, Obj, end, field}
use ise2ise.Json.{lookup, delete, set, str}

pub lookup-delete :
    (o : Obj) (k j : String) → lookup (delete o k) j ≡ (if k == j then none else lookup o j)
unfolding lookup delete
lookup-delete end k j = ground (arith, eq_iff k j)
lookup-delete (field i v o) k j =
    ground (arith, eq_iff i k, eq_iff i j, eq_iff k j, lookup-delete o k j)

pub lookup-set :
    (o : Obj) (k : String) (v : Value) (j : String)
    → lookup (set o k v) j ≡ (if k == j then some v else lookup o j)
unfolding lookup set
lookup-set o k v j = ground (arith, eq_iff k j, lookup-delete o k j)

pub str-delete : (o : Obj) (k j : String) → str (delete o k) j ≡ (if k == j then "" else str o j)
unfolding str
str-delete o k j = ground (arith, lookup-delete o k j)

pub str-set_text :
    (o : Obj) (k s j : String) → str (set o k (text s)) j ≡ (if k == j then s else str o j)
unfolding str
str-set_text o k s j = ground (arith, lookup-set o k (text s) j)
