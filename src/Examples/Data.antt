-- ===== src/Examples/Data.antt =====
-- A request, a policy and stand-ins for what the code takes from outside.
use vor_commander.Base.{ℕ, String, true, false, none, some, List, [], ◌∷◌, ◌+◌, ◌++◌, ◌%◌}
use vor_commander.Base.Text.{codes, bytes}
use vor_commander.Json.{unsigned, str, array, nil, cons}
use vor_commander.Protocol.{Digest32, Capability, ActionEnvelope, ActionRequest, Hashing}
use vor_commander.Policy.Config.{
  policy, default_auto_write, RuleDecision, FilesystemRule, PolicyConfig, PolicyEngine, Externals,
}

abbrev pub total : List ℕ → ℕ
total [] = 0
total (n ∷ ns) = n + total ns

-- the sum of the bytes, and 31 bytes that stay the same
abbrev pub checksum : List ℕ → Digest32
checksum m =
    (total m % 256)
    ∷ 1
    ∷ 1
    ∷ 1
    ∷ 1
    ∷ 1
    ∷ 1
    ∷ 1
    ∷ 1
    ∷ 1
    ∷ 1
    ∷ 1
    ∷ 1
    ∷ 1
    ∷ 1
    ∷ 1
    ∷ 1
    ∷ 1
    ∷ 1
    ∷ 1
    ∷ 1
    ∷ 1
    ∷ 1
    ∷ 1
    ∷ 1
    ∷ 1
    ∷ 1
    ∷ 1
    ∷ 1
    ∷ 1
    ∷ 1
    ∷ 1
    ∷ []

abbrev pub hashing : Hashing
hashing = record {
  to_vec = λ e. some (bytes (codes e.request_id) ++ bytes (codes e.target));
  sha256 = checksum;
}

abbrev pub nonce_16 : List ℕ
nonce_16 = 1 ∷ 2 ∷ 3 ∷ 4 ∷ 5 ∷ 6 ∷ 7 ∷ 8 ∷ 9 ∷ 10 ∷ 11 ∷ 12 ∷ 13 ∷ 14 ∷ 15 ∷ 16 ∷ []

abbrev pub read_files : Capability
read_files = record { name = "fs.read"; constraints = codes "b" ∷ codes "a" ∷ [] }

abbrev pub write_files : Capability
write_files = record { name = "fs.write"; constraints = codes "c" ∷ [] }

abbrev pub write_envelope : ActionEnvelope
write_envelope = record {
  request_id = "r1";
  organization_id = "org";
  actor_id = "alice";
  device_id = "pc";
  action = "filesystem.write";
  target = "C:\\work\\a.txt";
  parameters = ("content_bytes", unsigned 10) ∷ ("expected_target_sha256", str "absent") ∷ [];
  requested_capabilities = write_files ∷ read_files ∷ [];
  expires_at_unix_ms = 100000;
  nonce = nonce_16;
}

abbrev pub write_request : ActionRequest
write_request = record {
  envelope = write_envelope;
  envelope_digest = checksum (bytes (codes "r1") ++ bytes (codes "C:\\work\\a.txt"));
}

abbrev pub with_action : String → String → ActionRequest
with_action id action = record {
  envelope = record write_envelope {
    request_id = id;
    action = action;
    parameters = ("argv", array (cons (str "C:\\bin\\git.exe") (cons (str "status") nil))) ∷ [];
  };
  envelope_digest = checksum (bytes (codes id) ++ bytes (codes "C:\\work\\a.txt"));
}

-- The folder `C:\work`: what is read and written there needs no signature.
abbrev pub work_rule : FilesystemRule
work_rule = record { path = "C:\\Work"; read = RuleDecision.auto; write = RuleDecision.auto }

abbrev pub config : PolicyConfig
config = record {
  version = 1;
  policy_id = "main";
  mode = policy;
  auto_write = default_auto_write;
  filesystem = work_rule ∷ [];
  terminal = record {
    default_decision = RuleDecision.approval;
    inline_eval = RuleDecision.deny;
    project_tests = RuleDecision.approval;
    destructive = RuleDecision.deny;
    elevated = RuleDecision.elevated_approval;
    safe_executable_paths = codes "C:\\bin\\git.exe" ∷ [];
    safe_commands = record { executable = "git"; arguments = "status" ∷ [] } ∷ [];
  };
  process = record {
    list = RuleDecision.auto;
    inspect = RuleDecision.auto;
    terminate = RuleDecision.approval;
  };
  browser = record {
    authenticated_session_use = RuleDecision.approval;
    secret_extraction = RuleDecision.deny;
    publish = RuleDecision.approval;
    purchase = RuleDecision.deny;
  };
  desktop = record { enabled = true };
  network = record { public_listener_fallback = RuleDecision.deny };
  audit = record { required = true; fail_if_unwritable = true };
}

abbrev pub engine : PolicyEngine
engine = record { config = config; policy_hash = "00" }

-- A platform where every path is absolute and canonical as it is written.
abbrev pub externals : Externals
externals = record {
  windows = false;
  canonicalize = λ s. some s;
  is_absolute = λ s. true;
  file_stem = λ s. some (codes "git");
  extension = λ s. some (codes "exe");
  long_path_name = λ s. none;
  hex_decode = λ s. none;
  parse_yaml = λ s. some config;
  sha256_hex = λ s. "00";
}
