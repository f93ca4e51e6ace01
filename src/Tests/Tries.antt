-- ===== src/Tests/Tries.antt =====
-- The theorems on tries at a tree of two keys.
use smt.Prelude.{◌≡◌, refl, true, Bool-cases, inl, inr, [], ◌∷◌, length, arith}
use smt.Res.{ok}
use smt.Bytes.{Bytes, bytes_equal, bytes_equal→eq}
use smt.MapStore.Simple.{simple_map-IsMap, contents}
use smt.Proofs.{SparseMerkleProof, verify_proof}
use smt.Tree.Run.{Run, ◌>>=◌}
use smt.Tree.Api.{get, update, prove}
use smt.MapStore.Dict.{lookup}
use smt.Utils.{bit_of, reverse_byte_slices_in_place}
use smt.Utils.Reverse.{reverse_byte_slices_in_place-reverse}
use smt.Utils.Bits.{bit}
use smt.Trie.{Trie, empty, leaf, node, root_hash, find, Stored, WellFormed}
use smt.Trie.Walk.{HashKeyed}
use smt.Trie.Prove.{prove-verify}
use smt.Trie.Represents.{Represents, get-get_descend}
use smt.DeepSubTree.{get_descend}
use smt.Tests
use smt.Tests.{tiny_hash, store, Tree, program}

abbrev pub keyed : HashKeyed store
keyed = record { Fits = λ k. Unit; lookup = contents; is_map = simple_map-IsMap; fits = λ k e. tt }

abbrev fill : Run Tree Bytes
fill = do _ ← update (2 ∷ []) (20 ∷ []); update (4 ∷ []) (40 ∷ [])

abbrev pub state : Tree
state = (fill Tests.empty).1

-- The keys' paths differ at bit 5.
abbrev pub trie : Trie
trie =
    node
      (node
        (node (node (node empty (node (leaf (10 ∷ []) (20 ∷ [])) (leaf (12 ∷ []) (40 ∷ [])))) empty)
          empty)
        empty)
      empty

top : state.root ≡ root_hash trie
unfolding program root_hash
top = refl

held : Stored (contents state.nodes) trie
unfolding program root_hash
held = (
  refl,
  λ e. cc,
  (
    refl,
    λ e. cc,
    (
      refl,
      λ e. cc,
      (refl, λ e. cc, (refl, λ e. cc, tt, (refl, λ e. cc, (refl, λ e. cc), (refl, λ e. cc))), tt),
      tt,
    ),
    tt,
  ),
  tt,
)

pub well_formed : WellFormed 0 trie
unfolding bit bit_of
well_formed = ground arith

-- The value store holds the two keys' values and no other.
exact : (p : Bytes) → length p ≡ 1 → contents state.values p ≡ find trie p 0
unfolding program lookup find bit bit_of
exact p e = elim (Bool-cases (bytes_equal (12 ∷ []) p)) [
  | inl at ↦ rw (← (bytes_equal→eq (12 ∷ []) p at)) (ground arith)
  | inr a ↦ elim (Bool-cases (bytes_equal (10 ∷ []) p)) [
    | inl at ↦ rw (← (bytes_equal→eq (10 ∷ []) p at)) (ground arith)
    | inr b ↦ ground (arith, a, b)
  ]
]

pub stands : Represents keyed keyed state trie
stands = record { top = top; held = held; well_formed = well_formed; exact = exact }

prove-verify_example :
    (proof : SparseMerkleProof) × (prove (2 ∷ []) state ≡ (ok proof, state))
    × (verify_proof proof state.root (2 ∷ []) (20 ∷ []) ≡ ok true)
unfolding program find bit bit_of
prove-verify_example = prove-verify keyed state trie top held well_formed (2 ∷ [])

get-get_descend_example :
    (get (2 ∷ []) state ≡ (ok (20 ∷ []), state))
    × (get_descend (2 ∷ []) state ≡ (ok (20 ∷ []), state))
unfolding program find bit bit_of
get-get_descend_example = get-get_descend keyed keyed state trie stands (2 ∷ [])

reverse_byte_slices_in_place-reverse_example :
    reverse_byte_slices_in_place ((1 ∷ []) ∷ (2 ∷ []) ∷ (3 ∷ []) ∷ [])
    ≡ ok ((3 ∷ []) ∷ (2 ∷ []) ∷ (1 ∷ []) ∷ [])
reverse_byte_slices_in_place-reverse_example =
    reverse_byte_slices_in_place-reverse ((1 ∷ []) ∷ (2 ∷ []) ∷ (3 ∷ []) ∷ [])
