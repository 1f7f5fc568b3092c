-- ===== src/Ingest/Session/Post.antt =====
-- What holds after a step that succeeds, and the steps that leave the evidence alone.
use goggles.Ingest.Store.{Store}
use goggles.Ingest.Session.{
  ◌>>=◌, Fault, Session, Transaction, pure, Attempt, gets, modify, raise, done, run_then, raised,
}
use goggles.Base.{◌≡◌, refl, ◌∙◌, Bool, true, false, if◌then◌else◌}

-- If the attempt succeeds, its result and its session are as `Q` says.
abbrev pub Post : {A : Type 0} → (A → Session → Type 0) → Attempt A → Type 0
Post Q (done a s) = Q a s
Post Q (raised fault) = Unit

pub Post-bind :
    {A B : Type 0} (Q : A → Session → Type 0) (R : B → Session → Type 0) (m : Attempt A)
    (f : A → Transaction B)
    → Post Q m
    → ((a : A) (s : Session) → Q a s → Post R (f a s))
    → Post R (run_then m f)
Post-bind Q R (done a s) f h k = k a s h
Post-bind Q R (raised fault) f h k = tt

pub Post-if :
    {A : Type 0} (R : A → Session → Type 0) (b : Bool) (x y : Transaction A) (s : Session)
    → (b ≡ true → Post R (x s))
    → (b ≡ false → Post R (y s))
    → Post R ((if b then x else y) s)
Post-if R true x y s h k = h refl
Post-if R false x y s h k = k refl

-- The tables of the evidence are as they were.
pub record Untouched (s t : Store) : Type 0 where
  pub files : t.files ≡ s.files
  pub events : t.events ≡ s.events
  pub rejections : t.rejections ≡ s.rejections
  pub next_file : t.next_file ≡ s.next_file
  pub next_event : t.next_event ≡ s.next_event

abbrev pub untouched : (s : Store) → Untouched s s
untouched s = record {
  files = refl;
  events = refl;
  rejections = refl;
  next_file = refl;
  next_event = refl;
}

pub Untouched-trans : (s t u : Store) → Untouched s t → Untouched t u → Untouched s u
Untouched-trans s t u h k = record {
  files = k.files ∙ h.files;
  events = k.events ∙ h.events;
  rejections = k.rejections ∙ h.rejections;
  next_file = k.next_file ∙ h.next_file;
  next_event = k.next_event ∙ h.next_event;
}

-- The step leaves the evidence alone.
pub record Spares {A : Type 0} (m : Transaction A) : Type 0 where
  pub spare : (s : Session) → Post (λ _ t. Untouched s.store t.store) (m s)

Post-Untouched :
    {A : Type 0} (s t : Store) (x : Attempt A)
    → Untouched s t
    → Post (λ _ v. Untouched t v.store) x
    → Post (λ _ v. Untouched s v.store) x
Post-Untouched s t (done a v) u w = Untouched-trans s t v.store u w
Post-Untouched s t (raised fault) u w = tt

pub Spares-bind :
    {A B : Type 0} (m : Transaction A) (f : A → Transaction B)
    → Spares m
    → ((a : A) → Spares (f a))
    → Spares (m >>= f)
Spares-bind m f h k = record {
  spare = λ s.
      Post-bind (λ _ t. Untouched s.store t.store) (λ _ t. Untouched s.store t.store) (m s) f
        (h.spare s) (λ a t u. Post-Untouched s.store t.store (f a t) u ((k a).spare t));
}

pub Spares-pure : {A : Type 0} (a : A) → Spares (pure a)
Spares-pure a = record { spare = λ s. untouched s.store }

pub Spares-raise : {A : Type 0} (fault : Fault) → Spares (raise {A = A} fault)
Spares-raise fault = record { spare = λ s. tt }

pub Spares-gets : {A : Type 0} (f : Store → A) → Spares (gets f)
Spares-gets f = record { spare = λ s. untouched s.store }

pub Spares-modify : (f : Store → Store) → ((s : Store) → Untouched s (f s)) → Spares (modify f)
Spares-modify f h = record { spare = λ s. h s.store }

pub Spares-if :
    {A : Type 0} (b : Bool) (x y : Transaction A)
    → Spares x
    → Spares y
    → Spares (if b then x else y)
Spares-if true x y h k = h
Spares-if false x y h k = k
