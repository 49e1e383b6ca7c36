-- ===== src/Links.antt =====
-- The intrusive doubly linked lists of the allocators: a `next` and a `prev` field in every struct,
-- and a head pointer. A field is a function of the struct's address; `NULL` is 0.
-- `IsChain` states the three invariants that buddy.c lists beside its links.
pub mod Chain
pub mod Push
pub mod Unlink
pub mod Examples
use mini_libc.Base.{
  ℕ, ◌≡◌, ◌≢◌, Bool, true, false, ◌||◌, List, [], ◌∷◌, ◌==◌, if◌then◌else◌, update,
}

abbrev pub Ptr : Type 0
Ptr = ℕ

abbrev pub null : Ptr
null = 0

pub record Links : Type 0 where
  pub next : Ptr → Ptr
  pub prev : Ptr → Ptr
  pub head : Ptr

-- `x->next = head; if (head != NULL) head->prev = x; head = x;`
unfoldable pub push_front : Ptr → Links → Links
push_front x l = record {
  next = update l.next x l.head;
  prev = if l.head == null then l.prev else update l.prev l.head x;
  head = x;
}

-- `if (x->next != NULL) x->next->prev = NULL; head = x->next; x->next = NULL;` for the head x.
unfoldable pub pop_front : Ptr → Links → Links
pop_front x l = record {
  next = update l.next x null;
  prev = if l.next x == null then l.prev else update l.prev (l.next x) null;
  head = l.next x;
}

-- `if (x->prev != NULL) x->prev->next = x->next; if (x->next != NULL) x->next->prev = x->prev;
-- if (head == x) head = x->next;`, after which x itself still holds its old links.
unfoldable pub bypass : Ptr → Links → Links
bypass x l =
    let next' = if l.prev x == null then l.next else update l.next (l.prev x) (l.next x) in
    record {
      next = next';
      prev = if next' x == null then l.prev else update l.prev (next' x) (l.prev x);
      head = if l.head == x then next' x else l.head;
    }

-- `x->prev = NULL; x->next = NULL;`
unfoldable pub reset : Ptr → Links → Links
reset x l = record l { next = update l.next x null; prev = update l.prev x null }

-- The members of the list, from the head on.
abbrev pub has : Ptr → List Ptr → Bool
has a [] = false
has a (x ∷ xs) = (a == x) || has a xs

abbrev pub erase : Ptr → List Ptr → List Ptr
erase a [] = []
erase a (x ∷ xs) = if a == x then xs else x ∷ erase a xs

-- From `c` on, whose `prev` is `b`, the links lead through xs to `NULL`; no address comes twice.
abbrev pub Chain : (Ptr → Ptr) → (Ptr → Ptr) → Ptr → Ptr → List Ptr → Type 0
Chain next prev b c [] = c ≡ null
Chain next prev b c (x ∷ xs) =
    (c ≡ x) × (x ≢ null) × (prev x ≡ b) × (has x xs ≡ false) × Chain next prev x (next x) xs

-- The list is xs: its head has no `prev`, its tail no `next`, and what is not in it no `prev`.
pub record IsChain (l : Links) (xs : List Ptr) : Type 0 where
  pub chain : Chain l.next l.prev null l.head xs
  pub outside : (a : Ptr) → has a xs ≡ false → l.prev a ≡ null
