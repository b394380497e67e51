-- ===== src/Effects.antt =====
-- What a server does to the outside, in order, and how a run of it ends.
use c_language_learnning.Base.{
  ℕ, List, [], ◌∷◌, ◌++◌, true, false, ltb, lt→ltb, ◌<◌, ◌≡◌, refl, sym, append_assoc,
}

pub data Event : Type 0 where
  send : ℕ → List ℕ → Event
  close : ℕ → Event
  -- epoll_ctl(epfd, EPOLL_CTL_DEL, fd, NULL)
  unwatch : ℕ → ℕ → Event

-- `exited` is `exit(1)`; `fault` is a write or read outside a buffer, or a use of a null pointer.
pub data Run (A : Type 0) : Type 0 where
  ret : List Event → A → Run A
  exited : List Event → Run A
  fault : List Event → Run A

abbrev pub after : {A : Type 0} → List Event → Run A → Run A
after es (ret fs a) = ret (es ++ fs) a
after es (exited fs) = exited (es ++ fs)
after es (fault fs) = fault (es ++ fs)

infixl 5 ◌>>=◌ ◌>>◌
abbrev pub ◌>>=◌ : {A B : Type 0} → Run A → (A → Run B) → Run B
ret es a >>= f = after es (f a)
exited es >>= f = exited es
fault es >>= f = fault es

abbrev pub ◌>>◌ : {A B : Type 0} → Run A → Run B → Run B
m >> k = m >>= λ _. k

abbrev pub pure : {A : Type 0} → A → Run A
pure a = ret [] a

abbrev pub emit : Event → Run (Unit {0})
emit e = ret (e ∷ []) tt

abbrev pub exit : {A : Type 0} → Run A
exit = exited []

abbrev pub crash : {A : Type 0} → Run A
crash = fault []

-- A text of `n` bytes and its final zero go into a buffer of `size` bytes.
unfoldable pub fits : ℕ → ℕ → Run (Unit {0})
fits n size = elim (ltb n size) [ true ↦ pure tt | false ↦ crash ]

pub fits-pure : (n size : ℕ) → n < size → fits n size ≡ pure tt
unfolding fits
fits-pure n size h = rw (lt→ltb n size h, fits)

-- All bytes sent, one after the other.
abbrev pub output : List Event → List ℕ
output [] = []
output (send fd bytes ∷ es) = bytes ++ output es
output (close fd ∷ es) = output es
output (unwatch epfd fd ∷ es) = output es

abbrev pub events : {A : Type 0} → Run A → List Event
events (ret es a) = es
events (exited es) = es
events (fault es) = es

abbrev pub sent : {A : Type 0} → Run A → List ℕ
sent r = output (events r)

pub output-append : (es fs : List Event) → output (es ++ fs) ≡ output es ++ output fs
output-append [] fs = refl
output-append (send fd bytes ∷ es) fs =
    rw (output-append es fs) (sym (append_assoc bytes (output es) (output fs)))
output-append (close fd ∷ es) fs = output-append es fs
output-append (unwatch epfd fd ∷ es) fs = output-append es fs
