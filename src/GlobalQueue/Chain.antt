-- ===== src/GlobalQueue/Chain.antt =====
-- The list that the pointers of a `global_queue` spell.
use cpp_sk.Base.{◌≡◌, refl, sym, ap, ◌∙◌, ◌≢◌, Option, none, some, List, [], ◌∷◌, ◌++◌, arith}
use cpp_sk.GlobalQueue.{Ptr, GlobalQueue, assign}

-- From the pointer `p` the fields `next` lead through `xs` and end in null; `last` is the last.
abbrev pub Chain : (Ptr → Option Ptr) → Option Ptr → List Ptr → Type 0
Chain next p [] = p ≡ none
Chain next p (x ∷ xs) = (p ≡ some x) × Chain next (next x) xs

abbrev pub Fresh : Ptr → List Ptr → Type 0
Fresh q [] = Unit {0}
Fresh q (x ∷ xs) = (q ≢ x) × Fresh q xs

-- No queue twice.
abbrev pub Distinct : List Ptr → Type 0
Distinct [] = Unit {0}
Distinct (x ∷ xs) = Fresh x xs × Distinct xs

abbrev pub last? : List Ptr → Option Ptr
last? [] = none
last? (x ∷ []) = some x
last? (x ∷ y ∷ xs) = last? (y ∷ xs)

-- The global queue holds the queues `xs`, first to be taken first.
pub record Holds (g : GlobalQueue) (xs : List Ptr) : Type 0 where
  pub chain : Chain g.next g.head xs
  pub last : g.tail ≡ last? xs
  pub distinct : Distinct xs

-- A field of a queue outside the list may change.
pub Chain-assign :
    (next : Ptr → Option Ptr) (q : Ptr) (v : Option Ptr) (p : Option Ptr) (xs : List Ptr)
    → Fresh q xs
    → Chain next p xs
    → Chain (assign next q v) p xs
Chain-assign next q v p [] f c = c
Chain-assign next q v p (x ∷ xs) f c =
    let e : assign next q v x ≡ next x = ground (arith, f.0) in
    (c.0, rw e (Chain-assign next q v (next x) xs f.1 c.1))

some_eq : {x y : Ptr} → some x ≡ some y → x ≡ y
some_eq e = cc

pub last_ne : (x t : Ptr) (xs : List Ptr) → Fresh x xs → last? xs ≡ some t → x ≢ t
last_ne x t [] f l = cc
last_ne x t (y ∷ []) f l = λ e. f.0 (e ∙ some_eq (sym l))
last_ne x t (y ∷ z ∷ xs) f l = last_ne x t (z ∷ xs) f.1 l

pub Fresh-snoc : (x q : Ptr) (xs : List Ptr) → Fresh x xs → x ≢ q → Fresh x (xs ++ q ∷ [])
Fresh-snoc x q [] f ne = (ne, tt)
Fresh-snoc x q (y ∷ xs) f ne = (f.0, Fresh-snoc x q xs f.1 ne)

-- Writing the last `next` extends the list by one queue.
pub Chain-snoc :
    (next : Ptr → Option Ptr) (t q : Ptr) (p : Option Ptr) (xs : List Ptr)
    → Chain next p xs
    → last? xs ≡ some t
    → Distinct xs
    → Fresh q xs
    → next q ≡ none
    → Chain (assign next t (some q)) p (xs ++ q ∷ [])
Chain-snoc next t q p [] c l d f e = cc
Chain-snoc next t q p (x ∷ []) c l d f e =
    let at : x ≡ t = some_eq l in (c.0, (ground (arith, at), ground (arith, at, e, f.0)))
Chain-snoc next t q p (x ∷ y ∷ xs) c l d f e =
    let rest = Chain-snoc next t q (next x) (y ∷ xs) c.1 l d.1 f.1 e in
    let same : assign next t (some q) x ≡ next x = ground (arith, last_ne x t (y ∷ xs) d.0 l) in
    (c.0, (same ∙ rest.0, rest.1))

pub Distinct-snoc : (q : Ptr) (xs : List Ptr) → Distinct xs → Fresh q xs → Distinct (xs ++ q ∷ [])
Distinct-snoc q [] d f = (tt, tt)
Distinct-snoc q (x ∷ xs) d f =
    (Fresh-snoc x q xs d.0 (λ e. f.0 (sym e)), Distinct-snoc q xs d.1 f.1)

pub last_snoc : (q : Ptr) (xs : List Ptr) → last? (xs ++ q ∷ []) ≡ some q
last_snoc q [] = refl
last_snoc q (x ∷ []) = refl
last_snoc q (x ∷ y ∷ xs) = last_snoc q (y ∷ xs)

-- A list that is not empty has a last element.
pub last_cons : (x : Ptr) (xs : List Ptr) → (t : Ptr) × (last? (x ∷ xs) ≡ some t)
last_cons x [] = (x, refl)
last_cons x (y ∷ xs) = last_cons y xs

-- The last queue has no next.
pub Chain-last :
    (next : Ptr → Option Ptr) (p : Option Ptr) (xs : List Ptr) (t : Ptr)
    → Chain next p xs
    → last? xs ≡ some t
    → next t ≡ none
Chain-last next p [] t c l = cc
Chain-last next p (x ∷ []) t c l = ap next (some_eq (sym l)) ∙ c.1
Chain-last next p (x ∷ y ∷ xs) t c l = Chain-last next (next x) (y ∷ xs) t c.1 l
