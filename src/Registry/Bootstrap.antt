-- ===== src/Registry/Bootstrap.antt =====
-- domain/registry/bootstrap.ts: the records that every registry starts with.
use dsh_assistant.Prelude.{none, text_equality, number_equality, some, List, [], ◌∷◌}
use dsh_assistant.Registry.Types.{RegistryRegisterInput, managed, human, active, verified}

abbrev pub core_bootstrap_inventory : List RegistryRegisterInput
core_bootstrap_inventory =
    record {
      owner = "managed/personal-memory";
      version = "0.1.0";
      provenance = record { kind = managed; origin = human };
      status = some active;
      evidence = verified;
      capabilities =
          record { id = "memory.read"; permissions = [] }
          ∷ record { id = "memory.write"; permissions = [] }
          ∷ record { id = "memory.forget"; permissions = [] }
          ∷ [];
      permissions = none;
      runtime_seams = "memory" ∷ [];
      provider = none;
      tools = some ("remember_memory" ∷ "forget_memory" ∷ "recall_memory" ∷ []);
      services = some ("personalMemory" ∷ []);
      providers = none;
      plugin_dependencies = none;
    }
    ∷ record {
      owner = "managed/personal-knowledge";
      version = "0.1.0";
      provenance = record { kind = managed; origin = human };
      status = some active;
      evidence = verified;
      capabilities = record { id = "knowledge.retrieve"; permissions = [] } ∷ [];
      permissions = none;
      runtime_seams = "knowledge" ∷ [];
      provider = none;
      tools = some ("retrieve_knowledge" ∷ []);
      services = some ("personalKnowledge" ∷ []);
      providers = none;
      plugin_dependencies = none;
    }
    ∷ record {
      owner = "managed/integrations";
      version = "0.1.0";
      provenance = record { kind = managed; origin = human };
      status = some active;
      evidence = verified;
      capabilities =
          record { id = "calendar.read"; permissions = "local.fake.calendar.read" ∷ [] }
          ∷ record { id = "calendar.propose"; permissions = "local.fake.calendar.propose" ∷ [] }
          ∷ record { id = "calendar.execute"; permissions = "local.fake.calendar.execute" ∷ [] }
          ∷ record { id = "mail.read"; permissions = "local.fake.mail.read" ∷ [] }
          ∷ record { id = "mail.propose"; permissions = "local.fake.mail.propose" ∷ [] }
          ∷ record { id = "tasks.read"; permissions = "local.fake.tasks.read" ∷ [] }
          ∷ record { id = "tasks.propose"; permissions = "local.fake.tasks.propose" ∷ [] }
          ∷ record { id = "tasks.create"; permissions = "local.fake.tasks.create" ∷ [] }
          ∷ record { id = "files.read"; permissions = "local.fake.files.read" ∷ [] }
          ∷ record { id = "files.write"; permissions = "local.fake.files.write" ∷ [] }
          ∷ record { id = "files.delete"; permissions = "local.fake.files.delete" ∷ [] }
          ∷ record { id = "contacts.read"; permissions = "local.fake.contacts.read" ∷ [] }
          ∷ [];
      permissions = some ("local.fake.suite" ∷ []);
      runtime_seams =
          "integrations.calendar" ∷ "integrations.mail" ∷ "integrations.tasks"
          ∷ "integrations.files" ∷ "integrations.contacts" ∷ [];
      provider = some "fake";
      tools = some (
          "calendar_list_events" ∷ "calendar_propose_event" ∷ "calendar_create_event"
          ∷ "mail_list_messages" ∷ "mail_get_message" ∷ "contacts_search" ∷ "tasks_propose_create"
          ∷ "tasks_create" ∷ "files_list" ∷ "files_read" ∷ "files_write" ∷ "files_delete"
          ∷ "integration_status" ∷ []);
      services = some ("integrations" ∷ []);
      providers = some ("fake" ∷ []);
      plugin_dependencies = none;
    }
    ∷ record {
      owner = "managed/trust-policy";
      version = "0.1.0";
      provenance = record { kind = managed; origin = human };
      status = some active;
      evidence = verified;
      capabilities = record { id = "policy.confirm"; permissions = [] } ∷ [];
      permissions = none;
      runtime_seams = "policy" ∷ [];
      provider = none;
      tools = some ("confirm_action" ∷ []);
      services = some ("actionPolicy" ∷ []);
      providers = none;
      plugin_dependencies = none;
    }
    ∷ record {
      owner = "managed/assistant-jobs";
      version = "0.1.0";
      provenance = record { kind = managed; origin = human };
      status = some active;
      evidence = verified;
      capabilities = record { id = "jobs.run"; permissions = [] } ∷ [];
      permissions = none;
      runtime_seams = "jobs" ∷ [];
      provider = none;
      tools = none;
      services = some ("assistantJobs" ∷ []);
      providers = none;
      plugin_dependencies = none;
    }
    ∷ record {
      owner = "managed/web-search";
      version = "0.1.0";
      provenance = record { kind = managed; origin = human };
      status = some active;
      evidence = verified;
      capabilities =
          record { id = "web.search"; permissions = "external.deepseek.web.search" ∷ [] } ∷ [];
      permissions = some ("external.deepseek.web.search" ∷ []);
      runtime_seams = "web.search" ∷ [];
      provider = some "deepseek";
      tools = some ("web_search" ∷ []);
      services = some ("web" ∷ "governedWeb" ∷ []);
      providers = some ("deepseek" ∷ []);
      plugin_dependencies = none;
    }
    ∷ record {
      owner = "managed/ui-control-surface";
      version = "0.1.0";
      provenance = record { kind = managed; origin = human };
      status = some active;
      evidence = verified;
      capabilities = record { id = "ui.control"; permissions = [] } ∷ [];
      permissions = none;
      runtime_seams = "ui" ∷ [];
      provider = none;
      tools = none;
      services = some ("assistantControl" ∷ []);
      providers = none;
      plugin_dependencies = none;
    }
    ∷ []
