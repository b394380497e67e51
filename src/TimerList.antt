-- ===== src/TimerList.antt =====
-- The timers of network-programming/youshuang/timer/11-2lst_timer.h: `sort_timer_lst`, a doubly linked list of
-- timers in ascending order. A timer is its address, 0 being NULL; `next` and `prev` are the fields of all
-- timers, and `expire` gives the time of each. A callback is taken not to change the list.
pub mod Chain
pub mod Insert
pub mod Add
pub mod Tick
pub mod Delete
pub mod Adjust
mod Tests
use c_language_learnning.Base.{
  ℕ, zero, suc, Option, none, some, Bool, true, false, ◌&&◌, ◌||◌, List, [], ◌∷◌, ltb, ◌==◌,
  if◌then◌else◌,
}

pub record TimerList : Type 0 where
  pub next : ℕ → ℕ
  pub prev : ℕ → ℕ
  pub head : ℕ
  pub tail : ℕ

abbrev pub put : (ℕ → ℕ) → ℕ → ℕ → ℕ → ℕ
put field i v j = if j == i then v else field j

-- The end of add_timer(timer, lst_head), where `tmp` is NULL.
unfoldable pub append : TimerList → ℕ → ℕ → TimerList
append l prev timer = record l {
  next = put (put l.next prev timer) timer 0;
  prev = put l.prev timer prev;
  tail = timer;
}

-- The four writes of its loop, in front of `tmp`.
unfoldable pub link : TimerList → ℕ → ℕ → ℕ → TimerList
link l prev timer tmp = record l {
  next = put (put l.next prev timer) timer tmp;
  prev = put (put l.prev tmp timer) timer prev;
}

-- The loop of add_timer(timer, lst_head). `none`: out of fuel.
unfoldable pub insert_loop : (ℕ → ℕ) → ℕ → ℕ → TimerList → ℕ → ℕ → Option TimerList
insert_loop expire timer zero l prev tmp = none
insert_loop expire timer (suc fuel) l prev tmp =
    let rest = insert_loop expire timer fuel l tmp (l.next tmp) in
    if tmp == 0
    then some (append l prev timer)
    else if ltb (expire timer) (expire tmp)
    then some (link l prev timer tmp)
    else rest

-- add_timer(timer, lst_head)
unfoldable pub insert : (ℕ → ℕ) → ℕ → ℕ → TimerList → ℕ → Option TimerList
insert expire fuel timer l lst_head = insert_loop expire timer fuel l lst_head (l.next lst_head)

-- The branch of add_timer(timer) that makes the timer the new head.
unfoldable pub push_front : ℕ → TimerList → TimerList
push_front timer l = record l {
  next = put l.next timer l.head;
  prev = put l.prev l.head timer;
  head = timer;
}

-- add_timer(timer)
unfoldable pub add_timer : (ℕ → ℕ) → ℕ → ℕ → TimerList → Option TimerList
add_timer expire fuel timer l =
    if timer == 0
    then some l
    else if l.head == 0
    then some (record l { head = timer; tail = timer })
    else if ltb (expire timer) (expire l.head)
    then some (push_front timer l)
    else insert expire fuel timer l l.head

-- The branches of `adjust_timer` and `del_timer` that take a timer out of the middle.
unfoldable pub unlink : ℕ → TimerList → TimerList
unlink timer l =
    let next = put l.next (l.prev timer) (l.next timer) in
    record l { next = next; prev = put l.prev (next timer) (l.prev timer) }

-- head = head->next; head->prev = NULL
unfoldable pub drop_head : TimerList → TimerList
drop_head l = record l { head = l.next l.head; prev = put l.prev (l.next l.head) 0 }

unfoldable pub adjust_timer : (ℕ → ℕ) → ℕ → ℕ → TimerList → Option TimerList
adjust_timer expire fuel timer l =
    let tmp = l.next timer in
    let dropped = drop_head l in
    let cut = unlink timer l in
    if timer == 0
    then some l
    else if (tmp == 0) || ltb (expire timer) (expire tmp)
    then some l
    else if timer == l.head
    then insert expire fuel timer (record dropped { next = put dropped.next timer 0 }) dropped.head
    else insert expire fuel timer cut (cut.next timer)

-- tail = tail->prev; tail->next = NULL
unfoldable pub cut_tail : TimerList → TimerList
cut_tail l = record l { next = put l.next (l.prev l.tail) 0; tail = l.prev l.tail }

unfoldable pub del_timer : ℕ → TimerList → TimerList
del_timer timer l =
    if timer == 0
    then l
    else if (timer == l.head) && (timer == l.tail)
    then record l { head = 0; tail = 0 }
    else if timer == l.head
    then drop_head l
    else if timer == l.tail
    then cut_tail l
    else unlink timer l

-- The round of `tick` that takes the timer at the head: `if (head)` guards the write to `prev`.
unfoldable pub tick_head : TimerList → TimerList
tick_head l =
    let head = l.next l.head in
    record l { head = head; prev = if head == 0 then l.prev else put l.prev head 0 }

-- A callback, and those after it.
unfoldable pub called : ℕ → Option (List ℕ × TimerList) → Option (List ℕ × TimerList)
called timer none = none
called timer (some (timers, l)) = some (timer ∷ timers, l)

-- The loop of `tick`, with `tmp` the head: the timers whose callback is called, and the list. `none`: out of fuel.
unfoldable pub tick : (ℕ → ℕ) → ℕ → ℕ → TimerList → Option (List ℕ × TimerList)
tick expire cur zero l = none
tick expire cur (suc fuel) l =
    let rest = called l.head (tick expire cur fuel (tick_head l)) in
    if l.head == 0 then some ([], l) else if ltb cur (expire l.head) then some ([], l) else rest
