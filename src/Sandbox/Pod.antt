-- ===== src/Sandbox/Pod.antt =====
-- internal/sandbox/podspec.go, provider.go and secrets.go: the pod of an agent. `strings.ToLower` and the two parts of
-- a path (`filepath.Dir`, `filepath.Base`) are a `PodLibrary`.
use Prim.Native.String.{◌++◌ as append}
use shclop.Prelude.{
  ℕ, String, Bool, true, false, not, ◌&&◌, Option, none, some, List, [], ◌∷◌, ◌==◌, if◌then◌else◌,
}
use shclop.Prelude.Text.{trim_space}
use shclop.Prelude.Dict.{Dict, lookup, insert}
use shclop.Store.Memory.{failure, Result, ok, err}
use shclop.Store.Settings.{or_empty}
use shclop.Sandbox.Labels.{label_value, with_label, runtime_labels}

pub record PodLibrary : Type 0 where
  pub to_lower : String → String
  pub dir : String → String
  pub base : String → String

pub record SecretRef : Type 0 where
  pub name : String
  pub key : String
  pub env_name : String
  pub mount_path : String

pub record SecretKeyRef : Type 0 where
  pub name : String
  pub key : String
  pub env_var : String

pub record AgentPodRequest : Type 0 where
  pub agent_id : String
  pub owner_id : String
  pub image : String
  pub runtime_class_name : String
  pub gateway_url : String
  pub runtime : String
  pub sandbox_id : String
  pub secret_ref : SecretRef
  pub workspace_pvc : String
  pub cpu : String
  pub memory : String
  pub llm_gateway_base_url : String
  pub llm_model : String
  pub llm_gateway_secret_ref : Option SecretKeyRef
  pub system_prompt : String
  pub integration_env : Dict String

pub record VolumeSpec : Type 0 where
  pub name : String
  pub pvc : String
  pub secret_name : String
  pub secret_key : String
  pub secret_path : String

pub record VolumeMount : Type 0 where
  pub name : String
  pub mount_path : String
  pub read_only : Bool

pub record ContainerSpec : Type 0 where
  pub name : String
  pub image : String
  pub privileged : Bool
  pub allow_privilege_escalation : Bool
  pub read_only_root_filesystem : Bool
  pub run_as_non_root : Bool
  pub run_as_user : ℕ
  pub seccomp_profile : String
  pub drop_capabilities : List String
  pub cpu : String
  pub memory : String
  pub env : Dict String
  pub env_from : List SecretKeyRef
  pub volume_mounts : List VolumeMount

pub record AgentPodSpec : Type 0 where
  pub name : String
  pub labels : Dict String
  pub runtime_class_name : String
  pub automount_service_account_token : Bool
  pub host_network : Bool
  pub host_pid : Bool
  pub host_ipc : Bool
  pub fs_group : ℕ
  pub container : ContainerSpec
  pub volumes : List VolumeSpec

abbrev base_env : AgentPodRequest → Dict String
base_env req =
    ("SHCLOP_GATEWAY_URL", req.gateway_url)
    ∷ ("SHCLOP_AGENT_ID", req.agent_id)
    ∷ ("SHCLOP_AGENT_FLAVOR", req.runtime)
    ∷ ("SHCLOP_RUNTIME_TOKEN_FILE", req.secret_ref.mount_path)
    ∷ []

-- `for k, v := range req.IntegrationEnv { env[k] = v }`
unfoldable pub add_env : Dict String → Dict String → Dict String
add_env [] env = env
add_env ((key, value) ∷ rest) env = add_env rest (insert key value env)

unfoldable pub pod_env : AgentPodRequest → Dict String
unfolding add_env
pod_env req = add_env req.integration_env (
    with_label "AGENT_SYSTEM_PROMPT" req.system_prompt (
      with_label "LLM_GATEWAY_MODEL" req.llm_model
        (with_label "LLM_GATEWAY_BASE_URL" req.llm_gateway_base_url (base_env req))))

abbrev one_or_none : Option SecretKeyRef → List SecretKeyRef
one_or_none none = []
one_or_none (some ref) = ref ∷ []

abbrev has_secret : SecretRef → Bool
has_secret ref = not (ref.name == "") && not (ref.mount_path == "")

abbrev or_default : String → String → String
or_default value default = if value == "" then default else value

abbrev secret_volumes : PodLibrary → SecretRef → List VolumeSpec
secret_volumes lib ref =
    if has_secret ref
    then record {
      name = "runtime-token";
      pvc = "";
      secret_name = ref.name;
      secret_key = or_default ref.key (lib.base ref.mount_path);
      secret_path = lib.base ref.mount_path;
    }
      ∷ []
    else []

abbrev secret_mounts : PodLibrary → SecretRef → List VolumeMount
secret_mounts lib ref =
    if has_secret ref
    then record { name = "runtime-token"; mount_path = lib.dir ref.mount_path; read_only = true }
      ∷ []
    else []

abbrev pvc_volume : String → String → VolumeSpec
pvc_volume name pvc = record {
  name = name;
  pvc = pvc;
  secret_name = "";
  secret_key = "";
  secret_path = "";
}

unfoldable pub build_agent_pod_spec : PodLibrary → AgentPodRequest → AgentPodSpec
unfolding pod_env
build_agent_pod_spec lib req = record {
  name = append "agent-" req.agent_id;
  labels =
      with_label "shclop.io/owner-id" (label_value lib.to_lower req.owner_id)
        (runtime_labels lib.to_lower req.agent_id req.runtime req.sandbox_id);
  runtime_class_name = req.runtime_class_name;
  automount_service_account_token = false;
  host_network = false;
  host_pid = false;
  host_ipc = false;
  fs_group = 10001;
  container = record {
    name = "runtime";
    image = req.image;
    privileged = false;
    allow_privilege_escalation = false;
    read_only_root_filesystem = true;
    run_as_non_root = true;
    run_as_user = 10001;
    seccomp_profile = "RuntimeDefault";
    drop_capabilities = "ALL" ∷ [];
    cpu = req.cpu;
    memory = req.memory;
    env = pod_env req;
    env_from = one_or_none req.llm_gateway_secret_ref;
    volume_mounts =
        record { name = "workspace"; mount_path = "/workspace"; read_only = false }
        ∷ record { name = "memory"; mount_path = "/memory"; read_only = false }
        ∷ secret_mounts lib req.secret_ref;
  };
  volumes =
      pvc_volume "workspace" req.workspace_pvc
      ∷ pvc_volume "memory" req.workspace_pvc
      ∷ secret_volumes lib req.secret_ref;
}

pub record AgentRequest : Type 0 where
  pub agent_id : String
  pub owner_id : String
  pub runtime : String
  pub gateway_url : String
  pub sandbox_id : String
  pub secret_ref : SecretRef
  pub workspace_pvc : String
  pub cpu : String
  pub memory : String

pub record KataProvider : Type 0 where
  pub runtime_class_name : String
  pub images : Dict String

-- `KataProvider.BuildAgentPod`
unfoldable pub build_agent_pod : PodLibrary → KataProvider → AgentRequest → Result AgentPodSpec
unfolding build_agent_pod_spec
build_agent_pod lib p req =
    let image = or_empty (lookup req.runtime p.images) in
    if image == ""
    then err (failure "unknown runtime")
    else ok (
        build_agent_pod_spec lib (record {
          agent_id = req.agent_id;
          owner_id = req.owner_id;
          image = image;
          runtime_class_name = p.runtime_class_name;
          gateway_url = req.gateway_url;
          runtime = req.runtime;
          sandbox_id = req.sandbox_id;
          secret_ref = req.secret_ref;
          workspace_pvc = req.workspace_pvc;
          cpu = req.cpu;
          memory = req.memory;
          llm_gateway_base_url = "";
          llm_model = "";
          llm_gateway_secret_ref = none;
          system_prompt = "";
          integration_env = [];
        }))

-- What the secret of a token has: its name, its labels and its one value.
pub record TokenSecret : Type 0 where
  pub name : String
  pub namespace : String
  pub labels : Dict String
  pub token : String

abbrev runtime_token_name : String → String
runtime_token_name agent_id = append "shclop-runtime-token-" (trim_space agent_id)

unfoldable pub build_runtime_token_secret :
    PodLibrary → String → String → String → Result (SecretRef × TokenSecret)
build_runtime_token_secret lib namespace agent_id token =
    let id = trim_space agent_id in
    let value = trim_space token in
    if id == ""
    then err (failure "agentID is required")
    else if value == ""
    then err (failure "token is required")
    else ok (
      record {
        name = runtime_token_name id;
        key = "token";
        env_name = "SHCLOP_RUNTIME_TOKEN";
        mount_path = "/var/run/shclop/token";
      },
      record {
        name = runtime_token_name id;
        namespace = namespace;
        labels = runtime_labels lib.to_lower id "" "";
        token = value;
      },
    )
