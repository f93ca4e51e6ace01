-- ===== src/Tests/Deletes.antt =====
-- The theorems on deletions and on sequences of calls, at a tree of two keys.
use smt.Prelude.{◌≡◌, refl, Bool-cases, inl, inr, [], ◌∷◌, length, none}
use smt.Res.{ok}
use smt.Bytes.{Bytes, bytes_equal, bytes_equal→eq}
use smt.MapStore.Simple.{new_simple_map}
use smt.MapStore.Dict.{lookup}
use smt.Utils.{bit_of}
use smt.Utils.Bits.{bit}
use smt.TreeHasher.{path}
use smt.Tree.Api.{delete, get, update, new_sparse_merkle_tree}
use smt.DeepSubTree.{get_descend}
use smt.Trie.{empty, root_hash}
use smt.Trie.Represents.{Represents}
use smt.Trie.Insert.{insert, split, fork, Full}
use smt.Trie.Remove.{remove, collapse}
use smt.Trie.Remove.Represents.{delete-Represents}
use smt.Trie.Update.Reached.{Reached-Sound, get-delete}
use smt.Trie.History.{Writes, put, written, WithinAll, update_all}
use smt.Trie.History.Map.{update_all-written, written-root, root-written}
use smt.Trie.History.Undo.{update-delete}
use smt.Tests.{tiny_hash, store, Tree, program}
use smt.Tests.Tries.{keyed, state, trie}
use smt.Tests.Updates.{Seen, free, within, one, first, one_Reached, two_Reached}

delete-Represents_example :
    (s' : Tree) × (delete (4 ∷ []) state ≡ (ok (root_hash first), s'))
    × Represents keyed keyed s' first
    × Full first
unfolding program remove collapse fork bit bit_of
delete-Represents_example =
    let x = Reached-Sound keyed keyed Seen free two_Reached in
    delete-Represents keyed keyed Seen free state trie x.represents x.full x.within (4 ∷ [])
      within.1.1.1.1.2.1

get-delete_example :
    (s' : Tree) × (r : Bytes) × (delete (4 ∷ []) state ≡ (ok r, s'))
    × (r ≡ s'.root)
    × (get (2 ∷ []) s' ≡ (ok (20 ∷ []), s'))
unfolding program remove collapse fork bit bit_of
get-delete_example =
    get-delete keyed keyed Seen free state trie (4 ∷ []) (2 ∷ []) two_Reached within.1.1.1.1.2.1

update-delete_example :
    (s1 : Tree) × (s2 : Tree) × (r : Bytes) × (update (4 ∷ []) (40 ∷ []) one ≡ (ok r, s1))
    × (delete (4 ∷ []) s1 ≡ (ok one.root, s2))
    × (s2.root ≡ one.root)
    × ((k : Bytes) → get k s2 ≡ ((get k one).0, s2))
unfolding program insert split fork bit bit_of
update-delete_example =
    update-delete keyed keyed Seen free one first (4 ∷ []) (40 ∷ []) one_Reached refl (λ e. cc)
      within

-- Two updates, and a deletion of the second key by an update with the default value.
abbrev writes : Writes
writes = (2 ∷ [], 20 ∷ []) ∷ (4 ∷ [], 40 ∷ []) ∷ (4 ∷ [], []) ∷ []

abbrev fewer : Writes
fewer = (2 ∷ [], 20 ∷ []) ∷ []

writes_within : WithinAll Seen empty writes
unfolding program put remove collapse insert split fork bit bit_of
writes_within = (tt, (within.1.1.1.1.2.1, (within, within.1.1.1.1.2.1)))

fewer_within : WithinAll Seen empty fewer
unfolding program put remove collapse insert split fork bit bit_of
fewer_within = (tt, within.1.1.1.1.2.1)

abbrev new_one : Tree
new_one = new_sparse_merkle_tree new_simple_map new_simple_map []

blank : (q : Bytes) → length q ≡ 1 → keyed.lookup new_simple_map q ≡ none
unfolding program lookup
blank q e = refl

update_all-written_example :
    (s : Tree) × (update_all writes new_one ≡ (ok tt, s))
    × ((key : Bytes)
        → (get key s ≡ (ok (written writes (λ x. []) (path key)), s))
          × (get_descend key s ≡ (ok (written writes (λ x. []) (path key)), s)))
unfolding program
update_all-written_example =
    update_all-written keyed keyed Seen free new_simple_map new_simple_map writes blank
      writes_within

same_map : (q : Bytes) → written writes (λ x. []) q ≡ written fewer (λ x. []) q
unfolding written program
same_map q = elim (Bool-cases (bytes_equal (path (4 ∷ [])) q)) [
  | inl at ↦ rw (← (bytes_equal→eq (path (4 ∷ [])) q at)) refl
  | inr off ↦ rw off refl
]

abbrev after_writes : Tree
after_writes = (update_all writes new_one).1

abbrev after_fewer : Tree
after_fewer = (update_all fewer new_one).1

written-root_example : after_writes.root ≡ after_fewer.root
unfolding program update_all
written-root_example =
    written-root keyed keyed Seen free new_simple_map new_simple_map new_simple_map new_simple_map
      writes fewer after_writes after_fewer blank blank writes_within fewer_within refl refl
      (λ q e. same_map q)

root-written_example :
    written writes (λ x. []) (path (4 ∷ [])) ≡ written fewer (λ x. []) (path (4 ∷ []))
unfolding program update_all
root-written_example =
    root-written keyed keyed Seen free new_simple_map new_simple_map new_simple_map new_simple_map
      writes fewer after_writes after_fewer blank blank writes_within fewer_within refl refl refl
      (path (4 ∷ []))
