-- ===== src/Utils/Tests.antt =====
-- The theorems on src/utils at concrete containers.
use swdev_proj.Prelude.{
  ◌==◌, ◌↔◌, refl, true, List, Returns, [], arith, length, none, ok, some, ◌+◌, ◌∷◌, ◌≡◌,
}
use swdev_proj.Utils.Map
use swdev_proj.Utils.Map.{Map}
use swdev_proj.Utils.Map.Chain.{to_nat, is_some}
use swdev_proj.Utils.Map.Buckets.{view, IsValid, new-IsValid}
use swdev_proj.Utils.Map.Equality.{equals, all_in_arr, is_in_arr, Alike, equals-Alike}
use swdev_proj.Utils.Map.Laws.{Writes, put-Writes, remove-Writes}
use swdev_proj.Utils.Map.Keys.{occurs, get_keys-exact}
use swdev_proj.Utils.StrMap.{str_hashed}
use swdev_proj.Utils.Queue
use swdev_proj.Utils.Queue.{Queue}
use swdev_proj.Utils.Queue.Laws.{IsQueue, new-IsQueue, push-IsQueue, pop-IsQueue}
use swdev_proj.Store.Value.{Value}
use swdev_proj.Network.SizeTWrapper
use swdev_proj.Network.SizeTWrapper.{SizeTWrapper, wrapper_hashed}
use swdev_proj.Samples.{seven, eight}

abbrev five : SizeTWrapper
five = record { val = 5 }

abbrev numbers : Map SizeTWrapper Value
numbers = Map.new 4

numbers-IsValid : IsValid numbers
numbers-IsValid = new-IsValid 4 (omega arith)

put-Writes_example :
    Returns (Map.put (some five) (some seven) numbers) (Writes numbers five (some seven))
put-Writes_example = put-Writes numbers five numbers-IsValid tt seven

abbrev filled : Map SizeTWrapper Value
filled = (put-Writes numbers five numbers-IsValid tt seven).0.1

filled-IsValid : IsValid filled
filled-IsValid = (put-Writes numbers five numbers-IsValid tt seven).2.valid

filled-view : view filled five ≡ some seven
unfolding SizeTWrapper.equals
filled-view = (put-Writes numbers five numbers-IsValid tt seven).2.reads five tt

remove-Writes_example :
    Returns
      (Map.remove (some five) filled)
      (λ r. (r.0 ≡ some seven) × Writes filled five none r × (r.1.size + 1 ≡ filled.size))
remove-Writes_example = remove-Writes filled five filled-IsValid tt seven filled-view

get_keys-exact_example :
    (keys : List SizeTWrapper) × (Map.get_keys filled ≡ ok keys)
    × (length keys ≡ filled.size)
    × ((q : SizeTWrapper)
        → wrapper_hashed.Good q
        → occurs q keys ≡ to_nat (is_some (view filled q)))
get_keys-exact_example = get_keys-exact filled filled-IsValid

push-IsQueue_example :
    Returns (Queue.push (some seven) Queue.new) (λ r. IsQueue r (some seven ∷ []))
push-IsQueue_example = push-IsQueue Queue.new (some seven) [] new-IsQueue

abbrev one_value : Queue Value
one_value = (push-IsQueue Queue.new (some seven) [] new-IsQueue).0

one_value-IsQueue : IsQueue one_value (some seven ∷ [])
one_value-IsQueue = (push-IsQueue Queue.new (some seven) [] new-IsQueue).2

pop-IsQueue_example : Returns (Queue.pop one_value) (λ r. (r.0 ≡ some seven) × IsQueue r.1 [])
pop-IsQueue_example = pop-IsQueue one_value (some seven) [] one_value-IsQueue

abbrev six : SizeTWrapper
six = record { val = 6 }

abbrev pairs : Value → Value → Map SizeTWrapper Value
pairs x y = record { buckets = ((six, y) ∷ []) ∷ ((five, x) ∷ []) ∷ []; capacity = 2; size = 2 }

-- Two maps with the values of their keys exchanged are equal.
exchanged :
    equals (λ v w. v.capacity == w.capacity) (pairs seven eight) (pairs eight seven) ≡ ok true
unfolding equals all_in_arr is_in_arr SizeTWrapper.equals Map.get_keys Map.get_values
    Map.fill_buckets Map.fill_chain
exchanged = refl

equals-Alike_example :
    Returns
      (equals (λ v w. v.capacity == w.capacity) filled filled)
      (λ b. (b ≡ true) ↔ Alike (λ v w. v.capacity == w.capacity) filled filled)
equals-Alike_example =
    equals-Alike (λ v w. v.capacity == w.capacity) filled filled filled-IsValid filled-IsValid
