-- ===== src/CrawlState/Steps.antt =====
-- Reasoning on the steps of CrawlStateStore: chains, and relations between the session before and
-- after (internal/storage/crawl_state.go).
use gfap.Base.{◌≡◌, ap, ◌∙◌, refl}
use gfap.Redis.{Redis}
use gfap.CrawlState.{StateError, Checked, accepted, rejected}
use gfap.CrawlState.Session.{Session, Step, continue, ◌>>=◌}

module _ {R : Redis} {A B : Type 0} where
  -- A property of a chain: where its first step fails, and where it goes on.
  pub bind-elim :
      (Q : Checked B × Session R → Type 0) (m : Step R A) (k : A → Step R B) (s : Session R)
      → ((e : StateError) → (m s).0 ≡ rejected e → Q (rejected e, (m s).1))
      → ((a : A) → (m s).0 ≡ accepted a → Q (k a (m s).1))
      → Q ((m >>= k) s)
  bind-elim Q m k s = go (m s).0 (m s).1
    where
      go :
          (r : Checked A) (t : Session R)
          → ((e : StateError) → r ≡ rejected e → Q (rejected e, t))
          → ((a : A) → r ≡ accepted a → Q (k a t))
          → Q (continue r k t)
      go (accepted a) t f g = g a refl
      go (rejected e) t f g = f e refl

module _ {R : Redis} (I : Session R → Session R → Type 0) (I_refl : (s : Session R) → I s s)
    (I_trans : (s t u : Session R) → I s t → I t u → I s u) where
  -- A step whose session before and after are related.
  abbrev pub Follows : {A : Type 0} → Step R A → Type 0
  Follows m = (s : Session R) → I s (m s).1

  pub bind-Follows :
      {A B : Type 0} (m : Step R A) (k : A → Step R B)
      → Follows m
      → ((a : A) → Follows (k a))
      → Follows (m >>= k)
  bind-Follows m k f g s =
      bind-elim (λ r. I s r.1) m k s (λ e h. f s)
        (λ a h. I_trans s (m s).1 (k a (m s).1).1 (f s) (g a (m s).1))

pub bind-accepts :
    {R : Redis} {A B : Type 0} (m : Step R A) (k : A → Step R B) (s : Session R) (a : A)
    (t : Session R)
    → m s ≡ (accepted a, t)
    → (m >>= k) s ≡ k a t
bind-accepts m k s a t e = ap (λ r. continue r.0 k r.1) e

-- A step that succeeds, and what is known of its result and of the session after it.
abbrev pub Ensures :
    {R : Redis} {A : Type 0} → Step R A → Session R → (A → Session R → Type 0) → Type 0
Ensures {R} {A} m s Q = (a : A) × (t : Session R) × (m s ≡ (accepted a, t)) × Q a t

pub bind-Ensures :
    {R : Redis} {A B : Type 0} (m : Step R A) (k : A → Step R B) (s : Session R)
    (P : A → Session R → Type 0) (Q : B → Session R → Type 0)
    → Ensures m s P
    → ((a : A) (t : Session R) → P a t → Ensures (k a) t Q)
    → Ensures (m >>= k) s Q
bind-Ensures m k s P Q (a, t, e, p) f =
    let (b, u, d, q) = f a t p in (b, u, bind-accepts m k s a t e ∙ d, q)

pub ensures_to :
    {R : Redis} {A : Type 0} (m k : Step R A) (s u : Session R) (Q : A → Session R → Type 0)
    → m s ≡ k u
    → Ensures k u Q
    → Ensures m s Q
ensures_to m k s u Q e (a, t, d, q) = (a, t, e ∙ d, q)

pub weaken :
    {R : Redis} {A : Type 0} (m : Step R A) (s : Session R) (P Q : A → Session R → Type 0)
    → ((a : A) (t : Session R) → P a t → Q a t)
    → Ensures m s P
    → Ensures m s Q
weaken m s P Q f (a, t, e, p) = (a, t, e, f a t p)
