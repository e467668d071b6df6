-- ===== src/Tests/World.antt =====
-- A concrete environment: every call succeeds, a map is a function, a queue is a list.
use yaoi.Base.{
  ℕ, ◌<◌, ◌≤◌, ◌≡◌, refl, arith, ◌==◌, if◌then◌else◌, ltb, true, false, Option, none, some, List,
  [], ◌∷◌, ◌++◌, length,
}
use yaoi.Crates.{Crates, CrateTypes, Entry, Completion, done}
use yaoi.HugeTlb.{page_size}

module _ {A : Type 0} where
  pub list_push : ℕ → List A → A → Option (List A)
  list_push n b a = if ltb (length b) n then some (b ++ a ∷ []) else none

  pub list_pop : List A → Option (A × List A)
  list_pop [] = none
  list_pop (a ∷ b) = some (a, b)

  pub list_push-room :
      (n : ℕ) (b : List A) (a : A)
      → length b < n
      → (b' : List A) × (list_push n b a ≡ some b') × (b' ≡ b ++ a ∷ [])
  unfolding list_push
  list_push-room n b a h =
      let e : ltb (length b) n ≡ true = ground arith in (b ++ a ∷ [], rw e refl, refl)

  pub list_push-full : (n : ℕ) (b : List A) (a : A) → n ≤ length b → list_push n b a ≡ none
  unfolding list_push
  list_push-full n b a h = let e : ltb (length b) n ≡ false = ground arith in rw e refl

  pub list_pop-nil : (b : List A) → b ≡ [] → list_pop b ≡ none
  unfolding list_pop
  list_pop-nil b h = rw h refl

  pub list_pop-cons :
      (b : List A) (a : A) (l : List A)
      → b ≡ a ∷ l
      → (b' : List A) × (list_pop b ≡ some (a, b')) × (b' ≡ l)
  unfolding list_pop
  list_pop-cons b a l h = (l, rw h refl, refl)

abbrev pub some_types : CrateTypes
some_types = record {
  BearerError = ℕ;
  HugePageError = ℕ;
  RingBufError = ℕ;
  HugePageChoice = ℕ;
  HugePage = ℕ;
  RingBuf = ℕ;
}

-- The environment in which `batch` is what every look at the completions finds.
abbrev pub world : List (Entry × Completion) → Crates
world batch = record {
  types = some_types;
  capacity = λ _. page_size;
  bearer = λ _ _. done 0;
  os = λ _ _. done 0;
  new_page = λ _ _. done 0;
  drops_page = λ _ _. done tt;
  ring_step = λ _ _. done tt;
  registers = λ _ _. done 0;
  completions = λ _ _. (batch, done tt);
  Buf = λ _ A. List A;
  buf_new = λ _ _. [];
  push = λ {n} b a. list_push n b a;
  pop = λ b. list_pop b;
  items = λ b. b;
  items-new = λ _ _. refl;
  items-push = λ {n} b a h. list_push-room n b a h;
  push-full = λ {n} b a h. list_push-full n b a h;
  pop-nil = λ b h. list_pop-nil b h;
  pop-cons = λ b a l h. list_pop-cons b a l h;
  Map = λ V. ℕ → Option V;
  map_new = λ _. none;
  get = λ m k. m k;
  insert = λ m k v j. if k == j then some v else m j;
  remove = λ m k j. if k == j then none else m j;
  get-new = λ _. refl;
  get-insert = λ _ _ _ _. refl;
  get-remove = λ _ _ _. refl;
}
