-- ===== src/Tests/Clients.antt =====
-- A database client that returns the first fitting row, and a Redis client over functions.
use school_van_tracking_saa.Prelude.{
  ℕ, ◌+◌, ◌<◌, ◌≤◌, ◌≡◌, refl, sym, subst, ◌∙◌, inl, inr, Bool, true, false, Option, none, some,
  List, [], ◌∷◌, count, In, arith, Prisma, if◌then◌else◌, ltb, ◌==◌, Bool-cases,
}
unfoldable pub use native.Mathlib.Decide.{ℕ_discrete}
use school_van_tracking_saa.Redis.{Redis, RedisKey, Value}

abbrev scan : {A : Type 0} → (A → Bool) → List A → Option A
scan p [] = none
scan p (x ∷ xs) = if p x then some x else scan p xs

pub scan_sound :
    {A : Type 0} (p : A → Bool) (rows : List A) {a : A}
    → scan p rows ≡ some a
    → (p a ≡ true) × In a rows
scan_sound p [] h = absurd (ground arith)
scan_sound p (x ∷ xs) {a} h = elim (Bool-cases (p x)) [
  | inl y ↦ let e : x ≡ a = ground arith in (subst (λ z. p z ≡ true) e y, inl (sym e))
  | inr n ↦ let (fits, i) = scan_sound p xs (ground arith) in (fits, inr i)
]

pub scan_complete :
    {A : Type 0} (p : A → Bool) (rows : List A) → scan p rows ≡ none → count p rows ≡ 0
scan_complete p [] h = refl
scan_complete p (x ∷ xs) h = elim (Bool-cases (p x)) [
  | inl y ↦ absurd (ground arith)
  | inr n ↦ ground (arith, scan_complete p xs (ground arith))
]

abbrev pub first_row : Prisma
first_row = record {
  find_first = scan;
  find_first_sound = scan_sound;
  find_first_complete = scan_complete;
}

unfoldable pub RedisKey-discrete : Discrete RedisKey
RedisKey-discrete = hlevel ℕ_discrete

-- What each key holds at each instant, and the members of each set.
pub record KeySpace : Type 0 where
  pub value_at : RedisKey → ℕ → Option Value
  pub has_member : RedisKey → ℕ → ℕ → Bool

module _ {A : Type 0} (x y : A) where
  unfoldable pub pick : {P : Type 0} → Dec P → A
  pick (yes _) = x
  pick (no _) = y

  pub pick-yes : {P : Type 0} (d : Dec P) → P → pick d ≡ x
  unfolding pick
  pick-yes (yes _) p = refl
  pick-yes (no n) p = absurd (n p)

  pub pick-no : {P : Type 0} (d : Dec P) → ¬ P → pick d ≡ y
  unfolding pick
  pick-no (yes p) n = absurd (n p)
  pick-no (no _) n = refl

abbrev live : ℕ → ℕ → Value → Option Value
live later expiry v = if ltb later expiry then some v else none

pub live-before : (later expiry : ℕ) (v : Value) → later < expiry → live later expiry v ≡ some v
live-before later expiry v h = ground arith

pub live-after : (later expiry : ℕ) (v : Value) → expiry ≤ later → live later expiry v ≡ none
live-after later expiry v h = ground arith

pub if-== : (m : ℕ) (a b : Bool) → (if m == m then a else b) ≡ a
if-== m a b = ground arith

abbrev set_value : KeySpace → ℕ → RedisKey → ℕ → Value → KeySpace
set_value s now k ttl v = record s {
  value_at = λ j t. pick (live t (now + ttl) v) (s.value_at j t) (RedisKey-discrete j k);
}

abbrev drop : KeySpace → RedisKey → KeySpace
drop s k = record {
  value_at = λ j t. pick none (s.value_at j t) (RedisKey-discrete j k);
  has_member = λ j t m. pick false (s.has_member j t m) (RedisKey-discrete j k);
}

abbrev put_member : Bool → KeySpace → RedisKey → ℕ → KeySpace
put_member b s k m = record s {
  has_member = λ j t n.
      pick (if n == m then b else s.has_member j t n) (s.has_member j t n) (RedisKey-discrete j k);
}

abbrev expire_at : KeySpace → ℕ → RedisKey → ℕ → KeySpace
expire_at s now k ttl = record {
  value_at = λ j t.
      pick (if ltb t (now + ttl) then s.value_at j t else none) (s.value_at j t)
        (RedisKey-discrete j k);
  has_member = λ j t n.
      pick (if ltb t (now + ttl) then s.has_member j t n else false) (s.has_member j t n)
        (RedisKey-discrete j k);
}

-- Before the expiry either alternative is the same.
pub pick-before :
    {P : Type 0} (d : Dec P) (later expiry : ℕ) (b : Bool)
    → later < expiry
    → pick (if ltb later expiry then b else false) b d ≡ b
unfolding pick
pick-before (yes _) later expiry b h = ground arith
pick-before (no _) later expiry b h = refl

abbrev pub key_space : Redis Value
key_space = record {
  Store = KeySpace;
  get = λ s t k. s.value_at k t;
  setex = set_value;
  del = drop;
  sadd = put_member true;
  srem = put_member false;
  expire = expire_at;
  is_member = λ s now k m. s.has_member k now m;
  del_matching = λ s p. record {
    value_at = λ j t. if p j then none else s.value_at j t;
    has_member = λ j t m. if p j then false else s.has_member j t m;
  };
  get-setex_self = λ s now later ttl k v h.
      pick-yes _ _ (RedisKey-discrete k k) refl ∙ live-before later (now + ttl) v h;
  get-setex_late = λ s now later ttl k v h.
      pick-yes _ _ (RedisKey-discrete k k) refl ∙ live-after later (now + ttl) v h;
  get-setex_ne = λ s now later ttl k j v ne. pick-no _ _ (RedisKey-discrete j k) ne;
  get-del_self = λ s now k. pick-yes _ _ (RedisKey-discrete k k) refl;
  get-del_ne = λ s now k j ne. pick-no _ _ (RedisKey-discrete j k) ne;
  get-sadd = λ s now k j m. refl;
  get-srem = λ s now k j m. refl;
  get-expire_ne = λ s now later ttl k j ne. pick-no _ _ (RedisKey-discrete j k) ne;
  is_member-sadd_self = λ s now k m. pick-yes _ _ (RedisKey-discrete k k) refl ∙ if-== m _ _;
  is_member-srem_self = λ s now k m. pick-yes _ _ (RedisKey-discrete k k) refl ∙ if-== m _ _;
  is_member-expire = λ s now later ttl k j m h.
      pick-before (RedisKey-discrete j k) later (now + ttl) (s.has_member j later m) h;
  is_member-del_ne = λ s now k j m ne. pick-no _ _ (RedisKey-discrete j k) ne;
  is_member-setex_ne = λ s now later ttl k j v m ne. refl;
  get-del_matching = λ s now p k h. rw h refl;
  get-del_matching_ne = λ s now p k h. rw h refl;
  is_member-del_matching = λ s now p k m h. rw h refl;
}

abbrev pub empty_space : KeySpace
empty_space = record { value_at = λ k t. none; has_member = λ k t m. false }
