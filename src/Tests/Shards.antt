-- ===== src/Tests/Shards.antt =====
-- Shards, their keys and their lists, of the index in Data.
use vectory.Base.{
  arith, In, ◌≡◌, ◌↔◌, refl, List, [], ◌∷◌, some, codes, pos, atoi, itoa, split, ◌*ℤ◌,
}
use vectory.Shard.{
  Shard, shard_key, from_string, generate_shards, generate_unique_shards, shard_grid, shard_of,
  capacity, count_up, zero_shard,
}
use vectory.Shard.Keys.{from_string-shard_key}
use vectory.Shard.Generate.{In-generate_shards, IsShardOf, generate_shards-total, IsUniqueShardOf}
use vectory.Shard.Distinct.{Distinct, Distinct-generate_shards}
use vectory.Tests.Data.{books, books_meta, first_shard, second_shard}

abbrev all_books : List Shard
all_books =
    shard_of books_meta (pos 0) (pos 0)
    ∷ shard_of books_meta (pos 0) (pos 1)
    ∷ shard_of books_meta (pos 1) (pos 0)
    ∷ shard_of books_meta (pos 1) (pos 1)
    ∷ []

books_are_all : generate_shards books ≡ some all_books
unfolding generate_shards shard_grid capacity ◌*ℤ◌ count_up
books_are_all = refl

books_are_two : generate_unique_shards books ≡ some (first_shard ∷ second_shard ∷ [])
unfolding generate_unique_shards capacity ◌*ℤ◌ count_up
books_are_two = refl

key_of_second : shard_key second_shard ≡ codes "b:1:0"
unfolding shard_key itoa
key_of_second = refl

bad_numeral : from_string first_shard (codes "x:y:0") ≡ first_shard
unfolding from_string split atoi
bad_numeral = refl

from_string-shard_key_example : from_string zero_shard (shard_key second_shard) ≡ second_shard
from_string-shard_key_example =
    from_string-shard_key zero_shard second_shard ((λ e. absurd (cc)), tt) (omega arith)
      (omega arith)

In-generate_shards_example : In second_shard all_books ↔ IsShardOf books_meta second_shard
In-generate_shards_example = In-generate_shards books all_books second_shard books_are_all

Distinct-generate_shards_example : Distinct all_books
Distinct-generate_shards_example = Distinct-generate_shards books all_books books_are_all

generate_shards-total_example :
    ((l : List Shard) × (generate_shards books ≡ some l)
      × ((x : Shard) → In x l ↔ IsShardOf books_meta x))
    × ((u : List Shard) × (generate_unique_shards books ≡ some u)
        × ((x : Shard) → In x u ↔ IsUniqueShardOf books_meta x))
generate_shards-total_example = generate_shards-total books 2 2 refl refl (omega arith)
