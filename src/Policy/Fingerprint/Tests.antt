-- ===== src/Policy/Fingerprint/Tests.antt =====
-- Fingerprints of concrete actions.
use dsh_assistant.Prelude.{text_equality, number_equality, ◌≡◌, ◌≢◌, arith, String}
use dsh_assistant.Json.{str, arr, obj, nil, cons, Fields, end, field}
use dsh_assistant.Policy.Fingerprint.{action_fingerprint}
use dsh_assistant.Policy.Fingerprint.KeyOrder.{
  arrays, objects, no_items, items, no_fields, under, swap, fingerprint_of_SameFields,
}

abbrev inner : Fields
inner = field "z" (str "1") (field "a" (str "2") end)

abbrev turned : Fields
turned = field "a" (str "2") (field "z" (str "1") end)

abbrev outer : Fields → Fields
outer fs = field "list" (arr (cons (obj fs) nil)) end

z_not_a : ◌≢◌ {A = String} "z" "a"
z_not_a h = absurd (ground (arith, h, (text_equality.agrees "z" "a").1 h))

fingerprint_of_SameFields_example :
    action_fingerprint (λ s. s) "files" "write" (outer inner)
    ≡ action_fingerprint (λ s. s) "files" "write" (outer turned)
fingerprint_of_SameFields_example =
    fingerprint_of_SameFields (λ s. s) "files" "write" (outer inner) (outer turned)
      (under "list"
        (arrays (items (objects (swap "z" "a" (str "1") (str "2") end z_not_a)) no_items))
        no_fields)
