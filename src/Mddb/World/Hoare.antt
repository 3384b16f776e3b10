-- ===== src/Mddb/World/Hoare.antt =====
-- Triples for computations over a disk: what holds when one returns, what holds when it stops at an
-- error or a crash, and that it stops only if a call of the system does not end well.
use agent_task.Prelude.{
  ℕ, ◌≡◌, refl, sym, true, false, ◌⊎◌, List, [], ◌∷◌, if◌then◌else◌, Bool-cases, inl, inr, subst,
}
use agent_task.Mddb.Outcome.{Failure, Outcome, returned, system}
use agent_task.Mddb.World.{
  Disk, World, Fault, fine, fails, crashes, Ended, stopped, went, Io, pure, ◌>>=◌, lift, wrap,
  on_error, ignore, Call, meet, call, step, quiet,
}

-- The process is alive, and all calls to come are fine.
pub record IsCalm {R : Type 0} (w : World R) : Type 0 where
  pub alive : w.alive ≡ true
  pub faults : w.faults ≡ []

abbrev pub Post :
    {R A : Type 0} → World R → (A → Disk R → Type 0) → (Disk R → Type 0) → Ended R A → Type 0
Post w Q E (stopped e w') = E w'.disk × (IsCalm w → ⊥)
Post w Q E (went a w') = Q a w'.disk × (IsCalm w → IsCalm w')

pub record Hoare {R A : Type 0} (P : Disk R → Type 0) (m : Io R A) (Q : A → Disk R → Type 0)
    (E : Disk R → Type 0) : Type 0 where
  pub at : (w : World R) → P w.disk → Post w Q E (m w)

module _ {R : Type 0} where
  pub pure-Hoare :
      {A : Type 0} (P : Disk R → Type 0) (a : A) (Q : A → Disk R → Type 0) (E : Disk R → Type 0)
      → ((d : Disk R) → P d → Q a d)
      → Hoare P (pure a) Q E
  pure-Hoare P a Q E h = record { at = λ w p. (h w.disk p, λ c. c) }

  pub lift-Hoare :
      {A : Type 0} (P : Disk R → Type 0) (o : Outcome A) (a : A) (Q : A → Disk R → Type 0)
      (E : Disk R → Type 0)
      → o ≡ returned a
      → ((d : Disk R) → P d → Q a d)
      → Hoare P (lift o) Q E
  lift-Hoare P o a Q E e h =
      subst (λ o. Hoare P (lift o) Q E) (sym e) (record { at = λ w p. (h w.disk p, λ c. c) })

  Post-later :
      {B : Type 0} (w w' : World R) (S : B → Disk R → Type 0) (E : Disk R → Type 0) (r : Ended R B)
      → (IsCalm w → IsCalm w')
      → Post w' S E r
      → Post w S E r
  Post-later w w' S E (stopped e v) calm (x, not_calm) = (x, λ c. not_calm (calm c))
  Post-later w w' S E (went b v) calm (x, still) = (x, λ c. still (calm c))

  Post-bind :
      {A B : Type 0} (w : World R) (Q : A → Disk R → Type 0) (S : B → Disk R → Type 0)
      (E : Disk R → Type 0) (r : Ended R A) (next : A → Io R B)
      → Post w Q E r
      → ((a : A) → Hoare (Q a) (next a) S E)
      → Post w S E (elim r [ stopped e w' ↦ stopped e w' | went a w' ↦ next a w' ])
  Post-bind w Q S E (stopped e w') next h k = h
  Post-bind w Q S E (went a w') next (q, calm) k =
      Post-later w w' S E (next a w') calm ((k a).at w' q)

  pub bind-Hoare :
      {A B : Type 0} (P : Disk R → Type 0) (m : Io R A) (Q : A → Disk R → Type 0)
      (next : A → Io R B) (S : B → Disk R → Type 0) (E : Disk R → Type 0)
      → Hoare P m Q E
      → ((a : A) → Hoare (Q a) (next a) S E)
      → Hoare P (m >>= next) S E
  bind-Hoare P m Q next S E h k = record { at = λ w p. Post-bind w Q S E (m w) next (h.at w p) k }

  Post-meet :
      (P : Disk R → Type 0) (c : Call R) (Q : Disk R → Type 0) (E : Disk R → Type 0)
      → ((d : Disk R) → P d → Q (c.full d))
      → ((d : Disk R) (n : ℕ) → P d → E (c.failing n d))
      → ((d : Disk R) (n : ℕ) → P d → E (c.crashing n d))
      → (w : World R) (faults : List Fault) → w.alive ≡ true
      → w.faults ≡ faults
      → P w.disk
      → Post w (λ _. Q) E (meet c faults w)
  Post-meet P c Q E full failing crashing w [] alive is_it p =
      (full w.disk p, λ calm. record { alive = alive; faults = is_it })
  Post-meet P c Q E full failing crashing w (fine ∷ fs) alive is_it p =
      (full w.disk p, λ calm. absurd (cc (is_it, calm.faults)))
  Post-meet P c Q E full failing crashing w (fails n ∷ fs) alive is_it p =
      (failing w.disk n p, λ calm. cc (is_it, calm.faults))
  Post-meet P c Q E full failing crashing w (crashes n ∷ fs) alive is_it p =
      (crashing w.disk n p, λ calm. cc (is_it, calm.faults))

  pub call-Hoare :
      (P : Disk R → Type 0) (c : Call R) (Q : Disk R → Type 0) (E : Disk R → Type 0)
      → ((d : Disk R) → P d → E d)
      → ((d : Disk R) → P d → Q (c.full d))
      → ((d : Disk R) (n : ℕ) → P d → E (c.failing n d))
      → ((d : Disk R) (n : ℕ) → P d → E (c.crashing n d))
      → Hoare P (call c) (λ _. Q) E
  unfolding call
  call-Hoare P c Q E dead full failing crashing = record {
    at = λ w p. by_alive w p (Bool-cases w.alive);
  }
    where
      by_alive :
          (w : World R)
          → P w.disk
          → (w.alive ≡ true) ⊎ (w.alive ≡ false)
          → Post w (λ _. Q) E (call c w)
      by_alive w p (inl e) =
          subst (λ b. Post w (λ _. Q) E (if b then meet c w.faults w else stopped system w)) (sym e)
            (Post-meet P c Q E full failing crashing w w.faults e refl p)
      by_alive w p (inr e) =
          subst (λ b. Post w (λ _. Q) E (if b then meet c w.faults w else stopped system w)) (sym e)
            (dead w.disk p, λ calm. cc (e, calm.alive))

  -- A call that changes nothing, or all at once.
  pub step-Hoare :
      (P : Disk R → Type 0) (f : Disk R → Disk R) (Q : Disk R → Type 0) (E : Disk R → Type 0)
      → ((d : Disk R) → P d → E d)
      → ((d : Disk R) → P d → Q (f d))
      → Hoare P (call (step f)) (λ _. Q) E
  step-Hoare P f Q E stop full =
      call-Hoare P (step f) Q E stop full (λ d n p. stop d p) (λ d n p. stop d p)

  pub quiet-Hoare : (P E : Disk R → Type 0) → ((d : Disk R) → P d → E d) → Hoare P quiet (λ _. P) E
  quiet-Hoare P E stop = step-Hoare P (λ d. d) P E stop (λ d p. p)

  -- The computation that reads the disk first.
  pub read-Hoare :
      {A : Type 0} (P : Disk R → Type 0) (m : World R → Io R A) (Q : A → Disk R → Type 0)
      (E : Disk R → Type 0)
      → ((w : World R) → P w.disk → Post w Q E (m w w))
      → Hoare P (λ w. m w w) Q E
  read-Hoare P m Q E h = record { at = h }

  Post-wrap :
      {A : Type 0} (w : World R) (f : Failure → Failure) (Q : A → Disk R → Type 0)
      (E : Disk R → Type 0) (r : Ended R A)
      → Post w Q E r
      → Post w Q E (elim r [ stopped e w' ↦ stopped (f e) w' | went a w' ↦ went a w' ])
  Post-wrap w f Q E (stopped e w') h = h
  Post-wrap w f Q E (went a w') h = h

  pub wrap-Hoare :
      {A : Type 0} (P : Disk R → Type 0) (f : Failure → Failure) (m : Io R A)
      (Q : A → Disk R → Type 0) (E : Disk R → Type 0)
      → Hoare P m Q E
      → Hoare P (wrap f m) Q E
  wrap-Hoare P f m Q E h = record { at = λ w p. Post-wrap w f Q E (m w) (h.at w p) }

  Post-clean :
      {A : Type 0} (w before : World R) (Q : A → Disk R → Type 0) (E : Disk R → Type 0)
      (e : Failure) (r : Ended R (Unit {0}))
      → (IsCalm w → ⊥)
      → Post before (λ _. E) E r
      → Post {A = A} w Q E (elim r [ stopped _ w' ↦ stopped e w' | went _ w' ↦ stopped e w' ])
  Post-clean w before Q E e (stopped x w') never (h, _) = (h, never)
  Post-clean w before Q E e (went a w') never (h, _) = (h, never)

  Post-on_error :
      {A : Type 0} (w : World R) (Q : A → Disk R → Type 0) (M E : Disk R → Type 0)
      (clean : Io R (Unit {0})) (r : Ended R A)
      → Hoare M clean (λ _. E) E
      → Post w Q M r
      → Post w Q E (elim r [
        | stopped e w' ↦ elim (clean w') [
          | stopped _ w'' ↦ stopped e w''
          | went _ w'' ↦ stopped e w''
        ]
        | went a w' ↦ went a w'
      ])
  Post-on_error w Q M E clean (stopped e w') c (h, never) =
      Post-clean w w' Q E e (clean w') never (c.at w' h)
  Post-on_error w Q M E clean (went a w') c h = h

  pub on_error-Hoare :
      {A : Type 0} (P : Disk R → Type 0) (m : Io R A) (clean : Io R (Unit {0}))
      (Q : A → Disk R → Type 0) (M E : Disk R → Type 0)
      → Hoare P m Q M
      → Hoare M clean (λ _. E) E
      → Hoare P (on_error m clean) Q E
  on_error-Hoare P m clean Q M E h c = record {
    at = λ w p. Post-on_error w Q M E clean (m w) c (h.at w p);
  }

  Post-ignore :
      (w : World R) (E : Disk R → Type 0) (r : Ended R (Unit {0}))
      → Post w (λ _. E) E r
      → Post w (λ _. E) E (elim r [ stopped e w' ↦ went tt w' | went _ w' ↦ went tt w' ])
  Post-ignore w E (stopped e w') (h, never) = (h, λ c. absurd (never c))
  Post-ignore w E (went a w') h = h

  pub ignore-Hoare :
      (P : Disk R → Type 0) (m : Io R (Unit {0})) (E : Disk R → Type 0)
      → Hoare P m (λ _. E) E
      → Hoare P (ignore m) (λ _. E) E
  ignore-Hoare P m E h = record { at = λ w p. Post-ignore w E (m w) (h.at w p) }

  -- A fact that does not depend on the disk.
  pub fact-Hoare :
      {A : Type 0} (X : Type 0) (P : Disk R → Type 0) (m : Io R A) (Q : A → Disk R → Type 0)
      (E : Disk R → Type 0)
      → (X → Hoare P m Q E)
      → Hoare (λ d. X × P d) m Q E
  fact-Hoare X P m Q E h = record { at = λ w p. (h p.0).at w p.1 }

  -- A weaker assumption.
  pub weaken-Hoare :
      {A : Type 0} (P P' : Disk R → Type 0) (m : Io R A) (Q : A → Disk R → Type 0)
      (E : Disk R → Type 0)
      → ((d : Disk R) → P d → P' d)
      → Hoare P' m Q E
      → Hoare P m Q E
  weaken-Hoare P P' m Q E h t = record { at = λ w p. t.at w (h w.disk p) }

  Post-relax :
      {A : Type 0} (w : World R) (Q : A → Disk R → Type 0) (E E' : Disk R → Type 0) (r : Ended R A)
      → ((d : Disk R) → E d → E' d)
      → Post w Q E r
      → Post w Q E' r
  Post-relax w Q E E' (stopped e w') h (x, never) = (h w'.disk x, never)
  Post-relax w Q E E' (went a w') h p = p

  -- A weaker conclusion at an error.
  pub relax-Hoare :
      {A : Type 0} (P : Disk R → Type 0) (m : Io R A) (Q : A → Disk R → Type 0)
      (E E' : Disk R → Type 0)
      → ((d : Disk R) → E d → E' d)
      → Hoare P m Q E
      → Hoare P m Q E'
  relax-Hoare P m Q E E' h t = record { at = λ w p. Post-relax w Q E E' (m w) h (t.at w p) }

  Post-conclude :
      {A : Type 0} (w : World R) (Q Q' : A → Disk R → Type 0) (E E' : Disk R → Type 0)
      (r : Ended R A)
      → ((a : A) (d : Disk R) → Q a d → Q' a d)
      → ((d : Disk R) → E d → E' d)
      → Post w Q E r
      → Post w Q' E' r
  Post-conclude w Q Q' E E' (stopped e w') h k (x, never) = (k w'.disk x, never)
  Post-conclude w Q Q' E E' (went a w') h k (q, calm) = (h a w'.disk q, calm)

  -- A weaker assumption, and weaker conclusions.
  pub consequence-Hoare :
      {A : Type 0} (P P' : Disk R → Type 0) (m : Io R A) (Q Q' : A → Disk R → Type 0)
      (E E' : Disk R → Type 0)
      → Hoare P' m Q' E'
      → ((d : Disk R) → P d → P' d)
      → ((a : A) (d : Disk R) → Q' a d → Q a d)
      → ((d : Disk R) → E' d → E d)
      → Hoare P m Q E
  consequence-Hoare P P' m Q Q' E E' t f g h = record {
    at = λ w p. Post-conclude w Q' Q E' E (m w) g h (t.at w (f w.disk p));
  }
