-- ===== src/Registry/Service/Owners.antt =====
-- No two active records claim one capability, whatever is called.
use dsh_assistant.Prelude.{
  Bool-cases, any, text_equality, number_equality, ◌==◌, String, ◌≡◌, refl, sym, ap, ap₂, ◌∙◌, ◌⊎◌,
  inl, inr, Bool, true, not, ◌&&◌, some, List, [], ◌∷◌, arith,
}
use dsh_assistant.Prelude.Result.{ok, ◌>>◌, >>=-ok, Result-cases}
use dsh_assistant.Prelude.Dict.{get, put, get-put, values, all-get, IsDistinct, put-IsDistinct}
use dsh_assistant.Registry.Types.{
  is_active, CapabilityClaim, RegistryRecord, RegistryRegisterInput, RegistryRevisePatch,
  LifecycleStatus,
}
use dsh_assistant.Registry.Identity.{record_key}
use dsh_assistant.Registry.Service.{
  Registry, claims_capability, key_of, rivals, refuse, assert_claims, assert_no_active_conflict,
  register, transition_status, revise, known, key_for, revised_input,
}
use mathlib.Core.Path.{subst}
use dsh_assistant.Registry.Normalize.{normalize_register_input}
use dsh_assistant.Registry.Normalize.Kept.{normalize_register_input_lem}
use dsh_assistant.Prelude.Dict.Sole.{select_none}
use dsh_assistant.Registry.Service.Calls.{
  invoke, Call, run, after, registering, transitioning, revising,
}

pub record IsOwned (s : Registry) : Type 0 where
  pub distinct : IsDistinct s
  pub keyed : (k : String) (a : RegistryRecord) → get k s ≡ some a → key_of a ≡ k
  pub sole :
      (i j : String) (a b : RegistryRecord) (c : String)
      → get i s ≡ some a
      → get j s ≡ some b
      → is_active a.status ≡ true
      → is_active b.status ≡ true
      → claims_capability a c ≡ true
      → claims_capability b c ≡ true
      → i ≡ j

rival_key :
    (ignore c : String) (s : Registry) (j : String) (b : RegistryRecord)
    → rivals ignore c s ≡ []
    → get j s ≡ some b
    → is_active b.status ≡ true
    → claims_capability b c ≡ true
    → key_of b ≡ ignore
unfolding rivals
rival_key ignore c s j b h g act cl =
    let p : RegistryRecord → Bool = λ existing.
      not (key_of existing == ignore)
      && is_active existing.status
      && claims_capability existing c in
    ground (
      arith,
      act,
      cl,
      text_equality.agrees (key_of b) ignore,
      all-get (λ x. not (p x)) j s b (select_none p (values s) h) g,
    )

refuse_none :
    (r : RegistryRecord) (c : String) (rs : List RegistryRecord) → refuse r c rs ≡ ok tt → rs ≡ []
refuse_none r c [] h = refl
refuse_none r c (x ∷ xs) h = absurd (ground (arith, h))

claims_rivals :
    (r : RegistryRecord) (ignore : String) (s : Registry) (claims : List CapabilityClaim)
    (c : String)
    → assert_claims r ignore s claims ≡ ok tt
    → any (λ item. item.id == c) claims ≡ true
    → rivals ignore c s ≡ []
unfolding assert_claims
claims_rivals r ignore s [] c h m = absurd (ground (arith, m))
claims_rivals r ignore s (claim ∷ claims) c h m =
    let step =
      >>=-ok (refuse r claim.id (rivals ignore claim.id s)) (λ _. assert_claims r ignore s claims)
        tt h in
    elim (Bool-cases (claim.id == c)) [
      | inl same ↦
          subst (λ x. rivals ignore x s ≡ []) ((text_equality.agrees claim.id c).0 same)
            (refuse_none r claim.id (rivals ignore claim.id s) step.1)
      | inr other ↦ claims_rivals r ignore s claims c step.2 (ground (arith, m, other))
    ]

held_key :
    (r : RegistryRecord) (s : Registry) (j : String) (b : RegistryRecord) (c : String)
    → IsOwned s
    → assert_no_active_conflict r (key_of r) s ≡ ok tt
    → get j s ≡ some b
    → is_active r.status ≡ true
    → is_active b.status ≡ true
    → claims_capability r c ≡ true
    → claims_capability b c ≡ true
    → j ≡ key_of r
unfolding assert_no_active_conflict claims_capability
held_key r s j b c v h g ar ab cr cb =
    let checks : assert_claims r (key_of r) s r.capabilities ≡ ok tt = ground (arith, h, ar) in
    sym (v.keyed j b g)
    ∙ rival_key (key_of r) c s j b (claims_rivals r (key_of r) s r.capabilities c checks cr) g ab cb

put_cases :
    (k j : String) (r b : RegistryRecord) (s : Registry)
    → get j (put k r s) ≡ some b
    → ((k ≡ j) × (r ≡ b)) ⊎ (get j s ≡ some b)
put_cases k j r b s h = elim (Bool-cases (k == j)) [
  | inl same ↦ inl ((text_equality.agrees k j).0 same, ground (arith, same, h, get-put k j r s))
  | inr other ↦ inr (ground (arith, other, h, get-put k j r s))
]

put-IsOwned :
    (r : RegistryRecord) (s : Registry)
    → IsOwned s
    → assert_no_active_conflict r (key_of r) s ≡ ok tt
    → IsOwned (put (key_of r) r s)
put-IsOwned r s v h = record {
  distinct = put-IsDistinct (key_of r) r s v.distinct;
  keyed = λ k a g. elim (put_cases (key_of r) k r a s g) [
    | inl here ↦ sym (ap key_of here.1) ∙ here.0
    | inr there ↦ v.keyed k a there
  ];
  sole = λ i j a b c gi gj aa ab ca cb. elim (put_cases (key_of r) i r a s gi) [
    | inl hi ↦ elim (put_cases (key_of r) j r b s gj) [
      | inl hj ↦ sym hi.0 ∙ hj.0
      | inr tj ↦
          sym hi.0
          ∙ sym (
              held_key r s j b c v h tj (ap (λ x. is_active x.status) hi.1 ∙ aa) ab
                (ap (λ x. claims_capability x c) hi.1 ∙ ca) cb)
    ]
    | inr ti ↦ elim (put_cases (key_of r) j r b s gj) [
      | inl hj ↦
          held_key r s i a c v h ti (ap (λ x. is_active x.status) hj.1 ∙ ab) aa
            (ap (λ x. claims_capability x c) hj.1 ∙ cb) ca
          ∙ hj.0
      | inr tj ↦ v.sole i j a b c ti tj aa ab ca cb
    ]
  ];
}

put_key-IsOwned :
    (r : RegistryRecord) (key : String) (s : Registry)
    → IsOwned s
    → key_of r ≡ key
    → assert_no_active_conflict r key s ≡ ok tt
    → IsOwned (put key r s)
put_key-IsOwned r key s v e =
    subst (λ k. assert_no_active_conflict r k s ≡ ok tt → IsOwned (put k r s)) e (put-IsOwned r s v)

known-get :
    (key : String) (s : Registry) (r : RegistryRecord) → known key s ≡ ok r → get key s ≡ some r
known-get key s r h = ground (arith, h)

ok_put :
    (r : RegistryRecord) (key : String) (s : Registry) (out : RegistryRecord × Registry)
    → IsOwned s
    → key_of r ≡ key
    → (do assert_no_active_conflict r key s; ok (r, put key r s)) ≡ ok out
    → IsOwned out.1
ok_put r key s out v e h =
    subst IsOwned (ground (arith, h)) (put_key-IsOwned r key s v e (ground (arith, h)))

pub register-IsOwned :
    (input : RegistryRegisterInput) (s : Registry) (out : RegistryRecord × Registry)
    → IsOwned s
    → register input s ≡ ok out
    → IsOwned out.1
unfolding register
register-IsOwned input s out v h = elim (Result-cases (normalize_register_input input)) [
  | inl bad ↦ absurd (ground (arith, h, bad.1))
  | inr good ↦ let (r, e) = good in ok_put r (key_of r) s out v refl (ground (arith, h, e))
]

pub transition_status-IsOwned :
    (owner version : String) (status : LifecycleStatus) (s : Registry)
    (out : RegistryRecord × Registry)
    → IsOwned s
    → transition_status owner version status s ≡ ok out
    → IsOwned out.1
unfolding transition_status
transition_status-IsOwned owner version status s out v h =
    elim (Result-cases (key_for owner version)) [
      | inl bad ↦ absurd (ground (arith, h, bad.1))
      | inr good ↦
          let (key, e) = good in
          elim (Result-cases (known key s)) [
            | inl bad ↦ absurd (ground (arith, h, e, bad.1))
            | inr found ↦
                let (current, g) = found in
                ok_put (record current { status = status }) key s out v
                  (v.keyed key current (known-get key s current g)) (ground (arith, h, e, g))
          ]
    ]

pub revise-IsOwned :
    (owner version : String) (patch : RegistryRevisePatch) (s : Registry)
    (out : RegistryRecord × Registry)
    → IsOwned s
    → revise owner version patch s ≡ ok out
    → IsOwned out.1
unfolding revise
revise-IsOwned owner version patch s out v h = elim (Result-cases (key_for owner version)) [
  | inl bad ↦ absurd (ground (arith, h, bad.1))
  | inr good ↦
      let (key, e) = good in
      elim (Result-cases (known key s)) [
        | inl bad ↦ absurd (ground (arith, h, e, bad.1))
        | inr found ↦
            let (current, g) = found in
            elim (Result-cases (normalize_register_input (revised_input patch current))) [
              | inl bad ↦ absurd (ground (arith, h, e, g, bad.1))
              | inr normal ↦
                  let (r, n) = normal in
                  let kept = normalize_register_input_lem (revised_input patch current) r n in
                  ok_put (record r { approval = current.approval; status = current.status }) key s
                    out v
                    (ap₂ record_key kept.0 kept.1 ∙ v.keyed key current (known-get key s current g))
                    (ground (arith, h, e, g, n))
            ]
      ]
]

pub empty-IsOwned : IsOwned []
unfolding get
empty-IsOwned = record {
  distinct = tt;
  keyed = λ k a g. absurd (ground (arith, g));
  sole = λ i j a b c gi gj aa ab ca cb. absurd (ground (arith, gi));
}

invoke-IsOwned :
    (call : Call) (s : Registry) (out : RegistryRecord × Registry)
    → IsOwned s
    → invoke call s ≡ ok out
    → IsOwned out.1
unfolding invoke
invoke-IsOwned (registering input) s out v h = register-IsOwned input s out v h
invoke-IsOwned (transitioning owner version status) s out v h =
    transition_status-IsOwned owner version status s out v h
invoke-IsOwned (revising owner version patch) s out v h =
    revise-IsOwned owner version patch s out v h

pub run-IsOwned : (calls : List Call) (s : Registry) → IsOwned s → IsOwned (run calls s)
unfolding run
run-IsOwned [] s v = v
run-IsOwned (call ∷ calls) s v =
    run-IsOwned calls (after s (invoke call s)) (elim (Result-cases (invoke call s)) [
      | inl bad ↦ subst (λ m. IsOwned (after s m)) (sym bad.1) v
      | inr good ↦
          subst (λ m. IsOwned (after s m)) (sym good.1) (invoke-IsOwned call s good.0 v good.1)
    ])
