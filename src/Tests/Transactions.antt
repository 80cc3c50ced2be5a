-- ===== src/Tests/Transactions.antt =====
-- Paths and transactions at concrete inputs.
use go_fbx.Base.{
  member, ◌+◌, ◌≡◌, ◌≢◌, refl, Bool, true, false, none, some, [], ◌∷◌, Bytes, equal, ok,
  if◌then◌else◌, ltb, arith,
}
use Prim.Native.Nat.{min}
use go_fbx.Format.Checked.{max_uint64, saturating_add_uint64}
use go_fbx.Paths.{
  valid_utf8, contains, replace_all, split, join, clean_parts, starts_with_slash, clean, all_named,
  normalize,
}
use go_fbx.Paths.Normal.{normalize-canonical, normalize-clean}
use go_fbx.Fbx.Tx.{
  Tx, EntryInfo, lookup, entry_stored_bytes, remove, remove_many, remove_where, shown, set_meta,
}
use go_fbx.Fbx.Tx.Removal.{selected, count, remove_where_lem}
use go_fbx.Fbx.Tx.Many.{
  entry_stored_bytes_exact, remove_lem, set_meta_lem, normal_paths, remove_many_lem,
}
use go_fbx.Base.{ℕ, List}
use go_fbx.Tests.Samples.{entry_a, entry_b}

-- "x/b"
abbrev x_b : Bytes
x_b = 120 ∷ 47 ∷ 98 ∷ []

normalize-canonical_example : normalize x_b ≡ ok x_b
unfolding valid_utf8 contains starts_with_slash all_named split equal
normalize-canonical_example = normalize-canonical x_b (λ e. ground arith) refl refl refl refl refl

-- "./x//y/../b"
abbrev roundabout : Bytes
roundabout = 46 ∷ 47 ∷ 120 ∷ 47 ∷ 47 ∷ 121 ∷ 47 ∷ 46 ∷ 46 ∷ 47 ∷ 98 ∷ []

roundabout_normal : normalize roundabout ≡ ok x_b
unfolding normalize clean clean_parts join replace_all valid_utf8 contains starts_with_slash
    all_named split equal
roundabout_normal = refl

normalize-clean_example :
    (x_b ≢ [])
    × (starts_with_slash x_b ≡ false)
    × (all_named (split x_b) ≡ true)
    × (clean x_b ≡ x_b)
normalize-clean_example = normalize-clean roundabout roundabout_normal

abbrev tx : Tx
tx = record {
  entries = (97 ∷ [], entry_a) ∷ (x_b, entry_b) ∷ [];
  writer = record { file = 0 ∷ 0 ∷ []; append_offset = 2 };
  dead_bytes = 5;
  churn_ops = 1;
  closed = false;
}

abbrev has_content : EntryInfo → Bool
has_content i = ltb 0 i.size

remove_where_lem_example :
    ((k : Bytes)
      → lookup k (remove_where tx has_content).0.entries
        ≡ (if selected (shown has_content) k tx.entries then none else lookup k tx.entries))
    × ((remove_where tx has_content).1 ≡ count (shown has_content) tx.entries)
    × ((remove_where tx has_content).0.churn_ops
        ≡ min (1 + (remove_where tx has_content).1) max_uint64)
remove_where_lem_example = remove_where_lem tx has_content refl (omega arith)

-- "x/"
abbrev x_slash : Bytes
x_slash = 120 ∷ 47 ∷ []

entry_stored_bytes_exact_example : entry_stored_bytes entry_b ≡ min 39 max_uint64
entry_stored_bytes_exact_example = entry_stored_bytes_exact entry_b

x_b_found : lookup x_b tx.entries ≡ some entry_b
unfolding lookup equal
x_b_found = refl

remove_lem_example :
    ((k : Bytes)
      → lookup k (remove tx roundabout).0.entries
        ≡ (if equal k x_b then none else lookup k tx.entries))
    × ((remove tx roundabout).1 ≡ ok tt)
    × ((remove tx roundabout).0.dead_bytes ≡ saturating_add_uint64 5 (entry_stored_bytes entry_b))
    × ((remove tx roundabout).0.churn_ops ≡ saturating_add_uint64 1 1)
remove_lem_example = remove_lem tx roundabout refl roundabout_normal x_b_found

set_meta_lem_example :
    ((k : Bytes)
      → lookup k (set_meta tx roundabout (1 ∷ [])).0.entries
        ≡ (if equal k x_b then some (record entry_b { meta = 1 ∷ [] }) else lookup k tx.entries))
    × ((set_meta tx roundabout (1 ∷ [])).1 ≡ ok tt)
    × ((set_meta tx roundabout (1 ∷ [])).0.dead_bytes ≡ 5)
    × ((set_meta tx roundabout (1 ∷ [])).0.churn_ops ≡ 1)
set_meta_lem_example = set_meta_lem tx roundabout (1 ∷ []) refl roundabout_normal x_b_found

remove_many_lem_example :
    ((k : Bytes)
      → lookup k (remove_many tx (roundabout ∷ [] ∷ [])).0.entries
        ≡ (if member k (normal_paths (roundabout ∷ [] ∷ [])) then none else lookup k tx.entries))
    × ((remove_many tx (roundabout ∷ [] ∷ [])).0.churn_ops
        ≡ min (1 + (remove_many tx (roundabout ∷ [] ∷ [])).1) max_uint64)
remove_many_lem_example = remove_many_lem tx (roundabout ∷ [] ∷ []) refl (omega arith)

abbrev seven_eight : List ℕ
seven_eight = 7 ∷ 8 ∷ []
