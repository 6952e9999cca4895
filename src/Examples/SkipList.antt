-- ===== src/Examples/SkipList.antt =====
-- Skip lists and memtables at concrete inputs.
use eya_kv.Prelude.{ℕ, ◌≤◌, ◌≡◌, ◌≢◌, refl, some, [], ◌∷◌, arith}
use eya_kv.Effects.{returned, threw, plain_exception}
use eya_kv.Codec.Words.{Bytes}
use eya_kv.Structures.SkipList
use eya_kv.Structures.SkipList.{SkipList, Functions, new_skip_list}
use eya_kv.Structures.SkipList.Items.{Item}
use eya_kv.Structures.SkipList.Lookup.{IsSkipList, get-answer}
use eya_kv.Structures.SkipList.Update.{with_value, change, handle_value-changes}
use eya_kv.Structures.SkipList.Holds.{new_item, place}
use eya_kv.Structures.SkipList.Refinement.{inserted, insert-IsSkipList}
use eya_kv.Structures.SkipList.Reads.{new_skip_list-IsSkipList, get-threw}
use eya_kv.Storage.Value.{EyaValue, EValue, new_value}
use eya_kv.Storage.MemTable
use eya_kv.Storage.MemTable.{MemTable, Platform, bytes_compare, functions, should_flush}
use eya_kv.Storage.MemTable.Contents.{IsMemTable, order}
use eya_kv.Storage.MemTable.Puts.{get-put}
use eya_kv.Storage.MemTable.Initial.{empty-IsMemTable}
use eya_kv.Examples.Processors.{platform, memtable}

abbrev f : Functions Bytes (EValue ℕ)
f = functions platform

abbrev text : Bytes → EValue ℕ
text s = new_value (EyaValue.string s)

abbrev head : Item Bytes (EValue ℕ)
head = new_item 0 f.no_key f.no_value 3

abbrev empty : SkipList Bytes (EValue ℕ)
empty = new_skip_list f 3

empty-IsSkipList : IsSkipList f head [] empty
empty-IsSkipList = new_skip_list-IsSkipList f 3 (omega arith)

two_fits : 2 ≤ empty.max_level
unfolding new_skip_list
two_fits = omega arith

-- the key b, on two levels
abbrev one : SkipList Bytes (EValue ℕ)
one =
    (insert-IsSkipList f (order platform 3) (98 ∷ []) (text (49 ∷ [])) 2 head [] empty
      empty-IsSkipList (omega arith) two_fits).0

abbrev b_item : Item Bytes (EValue ℕ)
b_item = new_item 1 (98 ∷ []) (text (49 ∷ [])) 2

one-IsSkipList : IsSkipList f head (b_item ∷ []) one
unfolding inserted place functions new_skip_list
one-IsSkipList =
    (insert-IsSkipList f (order platform 3) (98 ∷ []) (text (49 ∷ [])) 2 head [] empty
      empty-IsSkipList (omega arith) two_fits).2

-- The key a goes in front of it.
insert-IsSkipList_example :
    (s' : SkipList Bytes (EValue ℕ)) × (SkipList.insert f 3 (97 ∷ []) (text (50 ∷ [])) one
      ≡ some s')
    × IsSkipList f head
        (inserted f
          (order platform 3)
          (97 ∷ [])
          (text (50 ∷ []))
          3
          head
          (b_item ∷ [])
          one
          one-IsSkipList)
        s'
insert-IsSkipList_example =
    insert-IsSkipList f (order platform 3) (97 ∷ []) (text (50 ∷ [])) 3 head (b_item ∷ []) one
      one-IsSkipList (omega arith) (omega (arith, one-IsSkipList.top))

get-answer_example : SkipList.get f (98 ∷ []) one ≡ some (returned (text (49 ∷ [])))
unfolding functions
get-answer_example = get-answer f (order platform 3) (98 ∷ []) head (b_item ∷ []) one one-IsSkipList

handle_value-changes_example :
    (s' : SkipList Bytes (EValue ℕ)) × (SkipList.handle_value {A = ℕ} f
        (98 ∷ [])
        (λ v. returned (7, text []))
        one
      ≡ some (returned (7, text (49 ∷ [])), s'))
    × IsSkipList f head (with_value (text []) 2 b_item ∷ []) s'
unfolding change functions
handle_value-changes_example =
    handle_value-changes f (order platform 3) (98 ∷ []) head (b_item ∷ []) one one-IsSkipList
      (λ v. returned (7, text [])) b_item refl

get-threw_example :
    (s' : SkipList Bytes (EValue ℕ)) × (SkipList.handle_value {A = ℕ} f
        (98 ∷ [])
        (λ v. threw plain_exception)
        one
      ≡ some (threw plain_exception, s'))
    × (SkipList.get f (98 ∷ []) s' ≡ some (returned f.no_value))
unfolding functions
get-threw_example =
    get-threw f (order platform 3) (98 ∷ []) head (b_item ∷ []) one (λ v. threw plain_exception)
      b_item plain_exception one-IsSkipList refl refl refl

pub memtable-IsMemTable : IsMemTable platform 2 memtable
memtable-IsMemTable =
    empty-IsMemTable platform 2 (record { bits = 0 ∷ []; num_hash_functions = 1 }) 0
      (omega arith, tt) (omega arith)

get-put_example :
    (t' : MemTable ℕ) × (MemTable.put platform 1 (97 ∷ []) (text (49 ∷ [])) memtable
      ≡ some (returned tt, t'))
    × (MemTable.get platform (97 ∷ []) t' ≡ some (some (text (49 ∷ []))))
    × ((k : Bytes) → 97 ∷ [] ≢ k → MemTable.get platform k t' ≡ MemTable.get platform k memtable)
    × IsMemTable platform 2 t'
unfolding should_flush
get-put_example =
    get-put platform 2 (97 ∷ []) (text (49 ∷ [])) 1 memtable memtable-IsMemTable refl (omega arith)
      (omega arith)
