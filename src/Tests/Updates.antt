-- ===== src/Tests/Updates.antt =====
-- The theorems on the tries of updated trees, at a tree of two keys.
use smt.Prelude.{true, ap, sym, ◌∙◌, ◌≡◌, refl, Bool-cases, inl, inr, List, [], ◌∷◌, ◌++◌, arith}
use smt.Res.{ok}
use smt.Bytes.{Bytes, bytes_equal, bytes_equal→eq}
use smt.MapStore.Simple.{new_simple_map}
use smt.MapStore.Dict.{lookup}
use smt.Utils.{bit_of}
use smt.Utils.Bits.{bit}
use smt.TreeHasher.{digest, path, leaf_value, node_value}
use smt.TreeHasher.Collisions.{
  CollisionFree, Listed, collision_free, collision_free-CollisionFree, Listed-append_right,
}
use smt.Tree.Run.{◌>>=◌}
use smt.Tree.Write.{update_loop}
use smt.Tree.Buffers.{own, read, update_loop_into, update_loop_into-update_loop}
use smt.Tree.Api.{get, update}
use smt.Trie.{Trie, empty, leaf, node, root_hash, find}
use smt.Trie.Represents.{Represents}
use smt.Trie.Insert.{insert, split, fork, Full}
use smt.Trie.Distinct.{Within, root_hash_injective}
use smt.Trie.Update.Represents.{update-Represents}
use smt.Trie.Update.Reached.{Reached, new, updated, Sound, Reached-Sound, Reached-root, update-get}
use smt.Tests
use smt.Tests.{tiny_hash, store, Tree, program}
use smt.Tests.Tries.{keyed, state, trie, well_formed}

-- All that a trie hashes.
abbrev hashed : Trie → List Bytes
hashed empty = []
hashed (leaf p v) = leaf_value p (digest v) ∷ v ∷ []
hashed (node l r) = node_value (root_hash l) (root_hash r) ∷ (hashed l ++ hashed r)

Listed-append_left :
    (front rest : List Bytes) (a : Bytes) → Listed front a → Listed (front ++ rest) a
Listed-append_left [] rest a m = absurd m
Listed-append_left (x ∷ front) rest a (inl e) = inl e
Listed-append_left (x ∷ front) rest a (inr m) = inr (Listed-append_left front rest a m)

Within-hashed :
    (Seen : Bytes → Type 0) (t : Trie)
    → ((a : Bytes) → Listed (hashed t) a → Seen a)
    → Within Seen t
Within-hashed Seen empty all = tt
Within-hashed Seen (leaf p v) all = (all _ (inl refl), all _ (inr (inl refl)))
Within-hashed Seen (node l r) all = (
  all _ (inl refl),
  Within-hashed Seen l (λ a m. all a (inr (Listed-append_left (hashed l) (hashed r) a m))),
  Within-hashed Seen r (λ a m. all a (inr (Listed-append_right (hashed l) (hashed r) a m))),
)

abbrev pub Seen : Bytes → Type 0
Seen = Listed (hashed trie)

pub free : CollisionFree Seen
unfolding program collision_free root_hash
free = collision_free-CollisionFree (hashed trie) refl

pub within : Within Seen trie
within = Within-hashed Seen trie (λ a m. m)

-- The tree with the first key alone.
abbrev pub one : Tree
one = (update (2 ∷ []) (20 ∷ []) Tests.empty).1

abbrev pub first : Trie
first = leaf (10 ∷ []) (20 ∷ [])

one-Represents : Represents keyed keyed one first
unfolding program find lookup root_hash
one-Represents = record {
  top = refl;
  held = (refl, λ e. cc);
  well_formed = ground arith;
  exact = λ p e. elim (Bool-cases (bytes_equal (10 ∷ []) p)) [
    | inl at ↦ rw (← (bytes_equal→eq (10 ∷ []) p at)) (ground arith)
    | inr a ↦ ground (arith, a)
  ];
}

inserted : insert first (path (4 ∷ [])) (40 ∷ []) 0 ≡ trie
unfolding program insert split fork bit bit_of
inserted = refl

update-Represents_example :
    (s' : Tree) × (update (4 ∷ []) (40 ∷ []) one ≡ (ok (root_hash trie), s'))
    × Represents keyed keyed s' trie
    × Full trie
unfolding program insert split fork bit bit_of
update-Represents_example =
    update-Represents keyed keyed Seen free one first one-Represents tt within.1.1.1.1.2.1 (4 ∷ [])
      (40 ∷ []) (λ e. cc) within

pub fresh : Reached keyed keyed Seen free Tests.empty empty
unfolding program lookup
fresh = new new_simple_map new_simple_map (λ q e. refl)

pub one_Reached : Reached keyed keyed Seen free one first
unfolding program insert split fork bit bit_of
one_Reached = updated (2 ∷ []) (20 ∷ []) _ fresh (λ e. cc) within.1.1.1.1.2.1 refl

pub two_Reached : Reached keyed keyed Seen free state trie
unfolding program insert split fork bit bit_of
two_Reached = updated (4 ∷ []) (40 ∷ []) _ one_Reached (λ e. cc) within refl

-- The keys in the other order.
abbrev turned : Tree
turned = ((update (4 ∷ []) (40 ∷ []) >>= λ _. update (2 ∷ []) (20 ∷ [])) Tests.empty).1

turned_Reached : Reached keyed keyed Seen free turned trie
unfolding program insert split fork bit bit_of
turned_Reached =
    let other =
      updated {s' = (update (4 ∷ []) (40 ∷ []) Tests.empty).1} (4 ∷ []) (40 ∷ []) _ fresh (λ e. cc)
        within.1.1.1.1.2.2 refl in
    updated (2 ∷ []) (20 ∷ []) _ other (λ e. cc) within refl

Reached-Sound_example : Sound keyed keyed Seen free state trie
Reached-Sound_example = Reached-Sound keyed keyed Seen free two_Reached

Reached-root_example : state.root ≡ turned.root
Reached-root_example =
    Reached-root keyed keyed Seen free state turned trie trie two_Reached turned_Reached (λ q e.
      (Reached-Sound keyed keyed Seen free two_Reached).represents.exact q e
      ∙ sym ((Reached-Sound keyed keyed Seen free turned_Reached).represents.exact q e))

update-get_example :
    (s' : Tree) × (root : Bytes) × (update (4 ∷ []) (40 ∷ []) one ≡ (ok root, s'))
    × (root ≡ s'.root)
    × (get (2 ∷ []) s' ≡ (ok (20 ∷ []), s'))
unfolding program insert split fork bit bit_of
update-get_example =
    update-get keyed keyed Seen free one first (4 ∷ []) (40 ∷ []) (2 ∷ []) one_Reached (λ e. cc)
      within

root_hash_injective_example : insert first (path (4 ∷ [])) (40 ∷ []) 0 ≡ trie
unfolding program insert split fork bit bit_of
root_hash_injective_example =
    root_hash_injective Seen free (insert first (path (4 ∷ [])) (40 ∷ []) 0) trie 0 0 within within
      well_formed well_formed (ap root_hash inserted)

-- Buffers of two sizes: one takes a hash of one byte, the other is too small.
update_loop_into-update_loop_example :
    update_loop_into 8
      (12 ∷ [])
      ((9 ∷ []) ∷ [])
      3
      (own (5 ∷ []))
      true
      (record { a = 7 ∷ 7 ∷ []; b = [] })
      one
    ≡ update_loop 8 (12 ∷ []) ((9 ∷ []) ∷ []) 3 (5 ∷ []) one
unfolding read
update_loop_into-update_loop_example =
    update_loop_into-update_loop 8 (12 ∷ []) ((9 ∷ []) ∷ []) 3 (own (5 ∷ [])) true
      (record { a = 7 ∷ 7 ∷ []; b = [] }) one
