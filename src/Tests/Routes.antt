-- ===== src/Tests/Routes.antt =====
-- The theorems on updates of a sharded tree, at two shards of one key each.
use smt.Prelude.{
  ℕ, zero, suc, ◌<◌, ◌≡◌, refl, false, Bool-cases, inl, inr, [], ◌∷◌, All, length, replicate, ◌==◌,
  ◌&&◌, if◌then◌else◌, arith,
}
use smt.Res.{ok, Returns}
use smt.Bytes.{Bytes, IsByte, bytes_equal}
use smt.MapStore.Simple.{SimpleMap, new_simple_map}
use smt.MapStore.Dict.{lookup}
use smt.TreeHasher.{path}
use smt.Utils.{bit_of}
use smt.Utils.Bits.{bit}
use smt.Sharded.{ShardedSmt, new_sharded_smt, update, get, compute_root}
use smt.Sharded.Routing.{made}
use smt.Sharded.Updates.{ShardsStand, RoutedTo, put_at, put-ShardsStand}
use smt.Sharded.History.{
  route, share, update_each, update_each-written, new_shards-Stands, made-RoutedTo,
}
use smt.Trie.{empty}
use smt.Trie.Insert.{insert, split, fork}
use smt.Trie.Remove.{remove, collapse}
use smt.Trie.History.{Writes, put, written, WithinAll}
use smt.Trie.History.Map.{Blank}
use smt.Tests.{tiny_hash, store, program}
use smt.Tests.Tries.{keyed}
use smt.Tests.Updates.{Seen, free, within}

abbrev stores : ℕ → SimpleMap × SimpleMap
stores i = (new_simple_map, new_simple_map)

-- A routing hash that sends the key 2 to the first shard and any other key to the second.
abbrev spread : Bytes → Bytes
spread key = if bytes_equal key (2 ∷ []) then replicate 32 10 else replicate 32 200

replicate-All : (n b : ℕ) → b < 256 → All IsByte (replicate n b)
replicate-All zero b lt = tt
replicate-All (suc n) b lt = (lt, replicate-All n b lt)

length-spread : (key : Bytes) → length (spread key) ≡ 32
length-spread key = elim (Bool-cases (bytes_equal key (2 ∷ []))) [
  | inl e ↦ rw e refl
  | inr e ↦ rw e refl
]

spread-IsByte : (key : Bytes) → All IsByte (spread key)
spread-IsByte key = elim (Bool-cases (bytes_equal key (2 ∷ []))) [
  | inl e ↦ rw e (replicate-All 32 10 (omega arith))
  | inr e ↦ rw e (replicate-All 32 200 (omega arith))
]

blank : (i : ℕ) → Blank keyed keyed Seen free (stores i).1
unfolding program lookup
blank i q e = refl

abbrev writes : Writes
writes = (2 ∷ [], 20 ∷ []) ∷ (4 ∷ [], 40 ∷ []) ∷ (4 ∷ [], []) ∷ []

writes_within : (i : ℕ) → WithinAll Seen empty (share (route spread 1) i writes)
unfolding program share put remove collapse insert split fork bit bit_of
writes_within zero = (tt, within.1.1.1.1.2.1)
writes_within (suc zero) = (tt, (within.1.1.1.1.2.2, tt))
writes_within (suc (suc i)) =
    let first_not : (suc (suc i) == 0) ≡ false = ground arith in
    let second_not : (suc (suc i) == 1) ≡ false = ground arith in rw (first_not, second_not) tt

update_each-written_example : Returns (new_sharded_smt 2 stores) λ s0.
    (s : ShardedSmt SimpleMap SimpleMap) × (update_each spread writes s0 ≡ (ok tt, s))
    × ((key : Bytes)
        → get spread key s ≡ (
          ok (written (share (route spread 1) (route spread 1 key) writes) (λ x. []) (path key)),
          s,
        ))
update_each-written_example =
    update_each-written keyed keyed Seen free stores spread 1 writes blank length-spread
      spread-IsByte (omega arith) writes_within

abbrev two : ShardedSmt SimpleMap SimpleMap
two = made stores 1

put-ShardsStand_example :
    (s' : ShardedSmt SimpleMap SimpleMap) × (update spread (2 ∷ []) (20 ∷ []) two ≡ compute_root s')
    × ShardsStand keyed keyed Seen free spread s' (put_at (λ i. empty) 0 (2 ∷ []) (20 ∷ []))
    × (length s'.shards ≡ length two.shards)
    × ((k : Bytes) (j : ℕ)
        → RoutedTo spread two k j
        → RoutedTo spread s' k j
          × (get spread k s' ≡ (
            if j == 0 && bytes_equal (path (2 ∷ [])) (path k)
                then ok (20 ∷ [])
                else (get spread k two).0,
            s',
          )))
unfolding program put insert split fork bit bit_of
put-ShardsStand_example =
    put-ShardsStand keyed keyed Seen free spread two (λ i. empty) (2 ∷ []) (20 ∷ []) 0
      (λ i t at.
        new_shards-Stands keyed keyed Seen free spread (route spread 1) stores blank 2 0 i t at)
      (made-RoutedTo stores spread length-spread spread-IsByte 1 (omega arith) (2 ∷ []))
      within.1.1.1.1.2.1
