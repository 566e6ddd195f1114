-- ===== src/HandleStorage/Names.antt =====
-- `handle_namehandle` and `handle_finename`, and what `handle_retire` does to the names.
use cpp_sk.Base.{ℕ, ◌≡◌, refl, ◌&&◌, none, some, List, [], ◌∷◌, ◌++◌, arith, if◌then◌else◌}
use cpp_sk.HandleStorage.{HandleStorage, lookup_name, handle_finename, handle_namehandle}
use Prim.Native.String.{String}
use text.Mathlib.Text.{◌==◌ as str_eq}
use text.Mathlib.TextEquality.{eq_iff}

lookup-append :
    (m : List (String × ℕ)) (k j : String) (h : ℕ)
    → lookup_name j (m ++ (k, h) ∷ [])
      ≡ elim (lookup_name j m) [ some v ↦ some v | none ↦ if str_eq k j then some h else none ]
unfolding lookup_name
lookup-append [] k j h = refl
lookup-append ((i, v) ∷ m) k j h = ground (arith, lookup-append m k j h)

-- `handle_namehandle` succeeds exactly for a text that has no handle; then the text finds the new
-- handle. All other texts, and a text that has a handle already, find what they found before.
pub finename-namehandle :
    (s : HandleStorage) (h : ℕ) (k j : String)
    → handle_finename (handle_namehandle s h k).0 j
      ≡ (if str_eq k j && (handle_namehandle s h k).1 then h else handle_finename s j)
unfolding handle_finename handle_namehandle
finename-namehandle s h k j = ground (arith, lookup-append s.name k j h, eq_iff k j)
