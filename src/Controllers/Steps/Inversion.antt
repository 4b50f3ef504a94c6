-- ===== src/Controllers/Steps/Inversion.antt =====
-- controllers/rabbitmqcluster_controller.go: from a chain of steps that went on to its end, its
-- parts; and from an update of the cluster object that succeeded, the answer of the server.
use pos_data_showcase.Prelude.{◌≡◌, refl, ap}
use pos_data_showcase.Kube.Outcome.{Outcome, returned, failed, panic}
use pos_data_showcase.Kube.Exec.{Result, ok, err}
use pos_data_showcase.Cluster.{RabbitmqCluster}
use pos_data_showcase.Controllers.{Loop, stored}
use pos_data_showcase.Controllers.Steps.{
  Reply, next, answer, panicked, Step, follow, ◌>>=◌, ◌>>◌, or_panic,
}

module _ {W A B : Type 0} where
  follow-eq-next :
      (x : Reply A) (f : A → Step W B) (s : Loop W) {b : B} {s' : Loop W}
      → follow x f s ≡ (next b, s')
      → (a : A) × (x ≡ next a) × (f a s ≡ (next b, s'))
  follow-eq-next (next a) f s e = (a, refl, e)
  follow-eq-next (answer x) f s e = absurd (cc (ap (λ p. p.0) e))
  follow-eq-next panicked f s e = absurd (cc (ap (λ p. p.0) e))

  pub >>=-eq-next :
      (m : Step W A) (f : A → Step W B) (s : Loop W) {b : B} {s' : Loop W}
      → (m >>= f) s ≡ (next b, s')
      → (a : A) × (s1 : Loop W) × (m s ≡ (next a, s1)) × (f a s1 ≡ (next b, s'))
  >>=-eq-next m f s e =
      let (a, x, rest) = follow-eq-next (m s).0 f (m s).1 e in
      (a, (m s).1, λ i. (x i, (m s).1), rest)

  pub >>-eq-next :
      (m : Step W A) (n : Step W B) (s : Loop W) {b : B} {s' : Loop W}
      → (m >> n) s ≡ (next b, s')
      → (a : A) × (s1 : Loop W) × (m s ≡ (next a, s1)) × (n s1 ≡ (next b, s'))
  >>-eq-next m n s e = >>=-eq-next m (λ _. n) s e

pub next-injective : {A : Type 0} (a b : A) → next a ≡ next b → a ≡ b
next-injective a b e = cc e

pub or_panic-eq-next :
    {W A : Type 0} (x : Outcome A) (s : Loop W) {a : A} {s' : Loop W}
    → or_panic x s ≡ (next a, s')
    → (x ≡ returned a) × (s ≡ s')
or_panic-eq-next (returned b) s e = (cc (ap (λ p. p.0) e), ap (λ p. p.1) e)
or_panic-eq-next (failed x) s e = absurd (cc (ap (λ p. p.0) e))
or_panic-eq-next panic s e = absurd (cc (ap (λ p. p.0) e))

pub stored_is_ok :
    {W : Type 0} (x : Result RabbitmqCluster) (s s' : Loop W)
    → stored x s ≡ (ok tt, s')
    → (c' : RabbitmqCluster) × (x ≡ ok c') × (c' ≡ s'.cluster) × (s.world ≡ s'.world)
stored_is_ok {W} (ok c') s s' e =
    let same = ap (λ (p : Result (Unit {0}) × Loop W). p.1) e in
    (c', refl, ap (λ (t : Loop W). t.cluster) same, ap (λ (t : Loop W). t.world) same)
stored_is_ok {W} (err x) s s' e = absurd (cc (ap (λ (p : Result (Unit {0}) × Loop W). p.0) e))
