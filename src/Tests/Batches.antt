-- ===== src/Tests/Batches.antt =====
-- BulkUpdate beside Update calls, at a batch of three items on a new tree.
use smt.Prelude.{◌≡◌, refl, List, [], ◌∷◌, arith}
use smt.Res.{ok}
use smt.Bytes.{Bytes}
use smt.Utils.{bit_of}
use smt.Utils.Bits.{bit}
use smt.Tree.Api.{get}
use smt.Bulk.{zip}
use smt.Bulk.Walk.{bulk_update}
use smt.Bulk.Items.{deletes, sets}
use smt.Bulk.Iterated.{bulk_update-update_all}
use smt.Trie.{empty}
use smt.Trie.Insert.{insert, split, fork}
use smt.Trie.Remove.{remove, collapse}
use smt.Trie.Update.Reached.{Reached-Sound}
use smt.Trie.History.{Stands, Writes, WithinAll, put, update_all}
use smt.Tests
use smt.Tests.{tiny_hash, store, Tree, program}
use smt.Tests.Tries.{keyed}
use smt.Tests.Updates.{Seen, free, within, fresh}

abbrev keys : List Bytes
keys = (4 ∷ []) ∷ (2 ∷ []) ∷ (2 ∷ []) ∷ (4 ∷ []) ∷ []

abbrev new_values : List Bytes
new_values = (40 ∷ []) ∷ (20 ∷ []) ∷ (20 ∷ []) ∷ [] ∷ []

-- The calls: a delete of a key that is not there, and three updates of two keys.
abbrev calls : Writes
calls = (4 ∷ [], []) ∷ (4 ∷ [], 40 ∷ []) ∷ (2 ∷ [], 20 ∷ []) ∷ (2 ∷ [], 20 ∷ []) ∷ []

calls_within : WithinAll Seen empty calls
unfolding program put remove collapse insert split fork bit bit_of
calls_within = (tt, (tt, (within.1.1.1.1.2.2, (within, within))))

empty-Stands : Stands keyed keyed Seen free Tests.empty empty
empty-Stands =
    let x = Reached-Sound keyed keyed Seen free fresh in
    record { represents = x.represents; full = x.full; within = x.within }

bulk_update-update_all_example :
    (s' : Tree) × (s2 : Tree) × (bulk_update keys new_values Tests.empty ≡ (ok s2.root, s'))
    × (update_all calls Tests.empty ≡ (ok tt, s2))
    × (s'.root ≡ s2.root)
    × ((key : Bytes) → get key s' ≡ ((get key s2).0, s'))
unfolding deletes sets zip program
bulk_update-update_all_example =
    bulk_update-update_all keyed keyed Seen free keys new_values Tests.empty empty refl
      (omega arith) empty-Stands calls_within
