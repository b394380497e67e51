-- ===== src/LinkedList/Tests.antt =====
-- The list of the program's own example.
use c_language_learnning.Base.{
  ◌+◌, ◌≡◌, refl, Option, none, some, List, [], ◌∷◌, ◌==◌, if◌then◌else◌, arith,
}
use c_language_learnning.Base.Int.{ℤ, pos, int_eq}
use c_language_learnning.Base.Links.{first, last_or}
use c_language_learnning.LinkedList.{
  LinkedList, add_node, take_out, remove_loop, remove_node, iterate_from, iterate_list, printed,
}
use c_language_learnning.LinkedList.Add.{IsLinked, Holds}

abbrev no_nodes : LinkedList
no_nodes = record { next = λ n. 7; value = λ n. pos 7; head = 0; tail = 0; len = 0 }

-- The values 101, 102 and 103 at the nodes 8, 16 and 24.
example_list : LinkedList
example_list = add_node 24 (pos 103) (add_node 16 (pos 102) (add_node 8 (pos 101) no_nodes))

printed_after : Option LinkedList → Option (List ℤ)
printed_after none = none
printed_after (some l) = iterate_list 9 l

main_runs : printed_after (remove_node (pos 102) 9 example_list) ≡ some (pos 101 ∷ pos 103 ∷ [])
unfolding printed_after iterate_list iterate_from printed remove_node remove_loop take_out
    example_list add_node int_eq
main_runs = refl

-- The values 5 and 6 at the nodes 1 and 2.
abbrev two_nodes : LinkedList
two_nodes = record {
  next = λ n. if n == 1 then 2 else 0;
  value = λ n. pos (4 + n);
  head = 1;
  tail = 2;
  len = 2;
}

two_nodes-Holds : Holds two_nodes (1 ∷ 2 ∷ [])
unfolding IsLinked first last_or
two_nodes-Holds = record {
  head_first = refl;
  tail_last = refl;
  linked = (omega arith, refl, (omega arith, tt), (omega arith, refl, tt, tt));
  counted = refl;
}
