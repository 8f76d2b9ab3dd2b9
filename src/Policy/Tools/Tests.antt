-- ===== src/Policy/Tools/Tests.antt =====
-- Tool calls at concrete arguments.
use dsh_assistant.Prelude.{text_equality, number_equality, ◌≡◌, refl, false, none}
use dsh_assistant.Json.{str, Fields, end, field}
use dsh_assistant.Policy.Types.{ActionRequest, execute}
use dsh_assistant.Policy.Tools.{argument, pick, classify_tool, thrown, requested, request_from_tool}
use dsh_assistant.Policy.Tools.Bound.{IsRepeat, confirmation_free}
use dsh_assistant.Prelude.Dict.{get}

abbrev write_args : Fields
write_args = field "content" (str "hi") (field "mode" (str "x") (field "path" (str "a.txt") end))

abbrev write_request : ActionRequest
write_request = record {
  capability = "files";
  operation = "write";
  intent = execute;
  payload = field "path" (str "a.txt") (field "content" (str "hi") end);
  confirmation_id = none;
  aborted = false;
}

writes_requested : request_from_tool "files_write" write_args false ≡ requested write_request
unfolding request_from_tool classify_tool pick argument get
writes_requested = refl

inherited_throws : request_from_tool "constructor" write_args false ≡ thrown
unfolding request_from_tool classify_tool pick argument get
inherited_throws = refl

confirmation_free_example :
    IsRepeat
      (λ s. s)
      (str "conf-1")
      (request_from_tool "files_write" (field "confirmationId" (str "conf-1") write_args) false)
      write_request
confirmation_free_example =
    confirmation_free (λ s. s) "files_write" write_args (str "conf-1") false write_request
      writes_requested
