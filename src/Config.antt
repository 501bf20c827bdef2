-- ===== src/Config.antt =====
-- The configuration files of a process: `_environment_files` of config/settings.py, and the choice of
-- the object store's credentials in infrastructure/document_submission.py. The fields themselves are
-- read by pydantic.
pub mod Files
use Prim.Native.Char.{Char, code}
use Prim.Native.String.{◌++◌}
use enterprise_rag_ingestion.Prelude.{
  ℕ, String, Bool, true, false, not, ◌&&◌, ◌||◌, Option, none, some, List, [], ◌∷◌, nat_eq,
  string_eq, ◌==◌, leb, if◌then◌else◌,
}
use mathlib.Core.List.{◌++◌ as ◌+++◌}
use enterprise_rag_ingestion.Exceptions.{Result, ok, raise, value_error, ◌>>=◌}
use enterprise_rag_ingestion.Texts.{any}

-- The process environment, `str.lower`, the repository's root, and the files that exist.
pub record Environment : Type 0 where
  pub getenv : String → Option String
  pub lower : String → String
  pub root : String
  pub is_file : String → Bool

-- `[a-z0-9-]`
abbrev pub is_name_char : Char → Bool
is_name_char c =
    leb 97 (code c) && leb (code c) 122 || leb 48 (code c) && leb (code c) 57 || code c == 45

-- `fullmatch(r"[a-z0-9-]+", name)`
unfoldable pub is_worker_name : String → Bool
is_worker_name name = not (name == "") && not (any (λ c. not (is_name_char c)) name)

-- A missing text and the empty text are falsy.
abbrev pub or_else : Option String → Option String → Option String
or_else none other = other
or_else (some s) other = if s == "" then other else some s

abbrev default : Option String → String → String
default none other = other
default (some s) other = s

module _ (env : Environment) where
  open env use {getenv, lower, root, is_file}

  abbrev pub profile_of : String
  profile_of = lower (default (getenv "RAG_CONFIG_PROFILE") "host")

  abbrev pub worker_file : String → String
  worker_file name = root ++ "/config/workers/" ++ name ++ ".env"

  -- The worker's file, where a worker is selected.
  abbrev pub selected_file : Option String → Result (List String)
  selected_file none = ok []
  selected_file (some name) =
      if name == ""
      then ok []
      else if not (is_worker_name name)
      then raise value_error
      else if not (is_file (worker_file name))
      then raise value_error
      else ok (worker_file name ∷ [])

  -- The base files, the worker's, and the secrets, which pydantic reads last.
  abbrev pub ordered : List String → List String
  ordered worker =
      (root ++ "/.env")
      ∷ (root ++ "/config/env/" ++ profile_of ++ ".env")
      ∷ (worker +++ ((root ++ "/secrets/local-runtime-secrets.env") ∷ []))

  unfoldable pub environment_files : Option String → Result (List String)
  environment_files worker_name =
      if not (profile_of == "host" || profile_of == "container")
      then raise value_error
      else (selected_file (or_else worker_name (getenv "RAG_WORKER_NAME")) >>= λ worker.
          ok (ordered worker))

-- An identity of the object store: its key and its secret.
pub record Credentials : Type 0 where
  pub access_key : String
  pub secret_key : String

-- The settings' identities: that of the API is optional.
pub record Identities : Type 0 where
  pub minio_access_key : String
  pub minio_secret_key : String
  pub minio_api_access_key : Option String
  pub minio_api_secret_key : Option String

abbrev given : Option String → Option String
given o = or_else o none

abbrev both : Credentials → Option String → Option String → Credentials
both other (some key) (some secret) = record { access_key = key; secret_key = secret }
both other _ _ = other

-- `SourceObjectStore.__init__`: a key and a secret are chosen together.
unfoldable pub choose_credentials : Identities → Credentials
choose_credentials s =
    both (record { access_key = s.minio_access_key; secret_key = s.minio_secret_key })
      (given s.minio_api_access_key) (given s.minio_api_secret_key)
