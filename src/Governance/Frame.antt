-- ===== src/Governance/Frame.antt =====
-- domain/governance/service.ts: what the parts of the methods leave alone.
pub mod Helpers
use dsh_assistant.Prelude.{
  if◌then◌else◌, text_equality, number_equality, ◌≡◌, refl, ap, ◌∙◌, inl, inr, Bool, true, false,
}
use dsh_assistant.Prelude.Result.{Result, Result-cases}
use dsh_assistant.Governance.State.{
  read, Governance, Outside, M, ◌>>=◌, return, ask_registry, change_registry, owners_from_registry,
}
use dsh_assistant.Registry.Service.{Registry}
use dsh_assistant.Registry.Types.{RegistryError, RegistryRecord}

-- nothing but the registry and the counter of the snapshots changed
abbrev pub Framed : Governance → Governance → Type 0
Framed s t = t ≡ record s { registry = t.registry; generation = t.generation }

pub Framed-trans : (s t u : Governance) → Framed s t → Framed t u → Framed s u
Framed-trans s t u p q =
    q ∙ ap (λ (x : Governance). record x { registry = u.registry; generation = u.generation }) p

-- the part leaves all but the registry and the counter, an error included
unfoldable pub Frames {ℓ} : {A : Type ℓ} → M A → Type 0
Frames m = (s : Governance) → Framed s (m s).1

pub then-Frames {ℓ κ} :
    {A : Type ℓ} {B : Type κ} (m : M A) (f : A → M B)
    → Frames m
    → ((a : A) → Frames (f a))
    → Frames (m >>= f)
unfolding ◌>>=◌ Frames
then-Frames m f h k s = elim (Result-cases (m s).0) [
  | inl (e, p) ↦ rw p (h s)
  | inr (a, p) ↦ rw p (Framed-trans s (m s).1 (f a (m s).1).1 (h s) (k a (m s).1))
]

pub return-Frames {ℓ} : {A : Type ℓ} (a : A) → Frames (return a)
unfolding Frames
return-Frames a s = refl

pub read-Frames : Frames read
unfolding Frames
read-Frames s = refl

pub if-Frames {ℓ} :
    {A : Type ℓ} (b : Bool) (m n : M A) → Frames m → Frames n → Frames (if b then m else n)
if-Frames true m n h k = h
if-Frames false m n h k = k

pub ask_registry-Frames {ℓ} :
    {A : Type ℓ} (f : Registry → Result RegistryError A) → Frames (ask_registry f)
unfolding Frames ask_registry
ask_registry-Frames f s = refl

pub change_registry-Frames :
    (f : Registry → Result RegistryError (RegistryRecord × Registry)) → Frames (change_registry f)
unfolding Frames change_registry
change_registry-Frames f s = elim (Result-cases (f s.registry)) [
  | inl (e, p) ↦ rw p refl
  | inr (a, p) ↦ rw p refl
]

pub ruleset frame = (
  then-Frames, return-Frames, read-Frames, if-Frames, ask_registry-Frames, change_registry-Frames,
)

pub owners_from_registry-Frames : (o : Outside) → Frames (owners_from_registry o)
unfolding owners_from_registry
owners_from_registry-Frames o = search frame
