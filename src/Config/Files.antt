-- ===== src/Config/Files.antt =====
-- Which files a process is configured from.
use Prim.Native.Char.{Char}
use Prim.Native.String.{◌++◌}
use mathlib.Core.List.{◌++◌ as ◌+++◌}
use enterprise_rag_ingestion.Prelude.{
  String, ◌≡◌, ◌≢◌, ◌⊎◌, refl, sym, ap, eq_iff, subst, inl, inr, Bool, true, false, not, ◌||◌,
  Option, none, some, List, [], ◌∷◌, nat_eq, string_eq, ◌==◌, arith, Bool-cases,
}
use enterprise_rag_ingestion.Exceptions.{ok, ok_unique, >>=-eq-ok}
use enterprise_rag_ingestion.Texts.{any, is_char, any-narrower}
use enterprise_rag_ingestion.Config.{
  Environment, is_name_char, is_worker_name, profile_of, worker_file, selected_file, ordered,
  environment_files, or_else,
}

-- What separates the parts of a path.
abbrev is_path_char : Char → Bool
is_path_char c = is_char 47 c || is_char 92 c || is_char 46 c

name_char-plain : (c : Char) → not (is_name_char c) ≡ false → is_path_char c ≡ false
name_char-plain c h = ground arith

-- No text, or the empty one.
abbrev pub IsAbsent : Option String → Type 0
IsAbsent o = (o ≡ none) ⊎ (o ≡ some "")

module _ (env : Environment) where
  -- The file of a worker, which exists, and whose name cannot lead out of its directory.
  pub record IsWorkerFile (name file : String) : Type 0 where
    pub path : env.root ++ "/config/workers/" ++ name ++ ".env" ≡ file
    pub named : name ≢ ""
    pub plain : any is_path_char name ≡ false
    pub exists : env.is_file file ≡ true

  -- The worker's file of a process, by the name that it is called with and the name that the
  -- environment gives, which counts where the first is absent.
  pub data Selected (given : Option String) : List String → Type 0 where
    by_name :
        {name file : String}
        → given ≡ some name
        → IsWorkerFile name file
        → Selected given (file ∷ [])
    by_environment :
        {name file : String}
        → IsAbsent given
        → env.getenv "RAG_WORKER_NAME" ≡ some name
        → IsWorkerFile name file
        → Selected given (file ∷ [])
    nothing : IsAbsent given → IsAbsent (env.getenv "RAG_WORKER_NAME") → Selected given []

  -- The worker's file of a name.
  data FileOf : Option String → List String → Type 0 where
    no_file : {name : Option String} → IsAbsent name → FileOf name []
    file_of : {name file : String} → IsWorkerFile name file → FileOf (some name) (file ∷ [])

  worker_file-IsWorkerFile :
      (name : String)
      → (name == "") ≡ false
      → is_worker_name name ≡ true
      → env.is_file (worker_file env name) ≡ true
      → IsWorkerFile name (worker_file env name)
  unfolding is_worker_name
  worker_file-IsWorkerFile name there valid found = record {
    path = refl;
    named = λ empty. absurd (cc (there, (eq_iff name "").1 empty));
    plain =
        any-narrower (λ c. not (is_name_char c)) is_path_char name name_char-plain (ground arith);
    exists = found;
  }

  selected_file-eq-ok :
      (selected : Option String) (worker : List String)
      → selected_file env selected ≡ ok worker
      → FileOf selected worker
  selected_file-eq-ok none worker h = subst (FileOf none) (ok_unique refl h) (no_file (inl refl))
  selected_file-eq-ok (some name) worker h = elim (Bool-cases (name == "")) [
    | inl empty ↦
        subst (FileOf (some name)) (ok_unique refl (rw empty at h))
          (no_file (inr (ap some ((eq_iff name "").0 empty))))
    | inr there ↦ elim (Bool-cases (is_worker_name name)) [
      | inr invalid ↦ absurd (cc (rw (there, invalid) at h))
      | inl valid ↦ elim (Bool-cases (env.is_file (worker_file env name))) [
        | inr missing ↦ absurd (cc (rw (there, valid, missing) at h))
        | inl found ↦
            subst (FileOf (some name)) (ok_unique refl (rw (there, valid, found) at h))
              (file_of (worker_file-IsWorkerFile name there valid found))
      ]
    ]
  ]

  FileOf-environment :
      (given set : Option String) (worker : List String)
      → env.getenv "RAG_WORKER_NAME" ≡ set
      → IsAbsent given
      → FileOf set worker
      → Selected given worker
  FileOf-environment given set worker read absent (no_file unset) =
      nothing absent (subst IsAbsent (sym read) unset)
  FileOf-environment given set worker read absent (file_of file) = by_environment absent read file

  FileOf-Selected :
      (given : Option String) (worker : List String)
      → FileOf (or_else given (env.getenv "RAG_WORKER_NAME")) worker
      → Selected given worker
  FileOf-Selected none worker h = FileOf-environment none _ worker refl (inl refl) h
  FileOf-Selected (some name) worker h = elim (Bool-cases (name == "")) [
    | inl empty ↦
        FileOf-environment (some name) _ worker refl (inr (ap some ((eq_iff name "").0 empty)))
          (rw empty at h)
    | inr there ↦ named_first name worker there (rw there at h)
  ]
    where
      named_first :
          (name : String) (worker : List String)
          → (name == "") ≡ false
          → FileOf (some name) worker
          → Selected (some name) worker
      named_first name worker there (no_file (inl missing)) = absurd (cc missing)
      named_first name worker there (no_file (inr empty)) =
          let same : name ≡ "" = ground (arith, empty) in
          absurd (cc (there, (eq_iff name "").1 same))
      named_first name worker there (file_of file) = by_name refl file

  -- Where the files of a process are returned, they are the repository's `.env`, the file of the
  -- profile, which is `host` or `container`, the worker's file where a worker is named, and last, so
  -- that they win over the others, the secrets. The worker is the one that the call names, or else the
  -- one that the environment names; its file exists, and its name holds no slash, backslash or dot.
  pub environment_files-eq-ok :
      (worker_name : Option String) (files : List String)
      → environment_files env worker_name ≡ ok files
      → (profile : String) × (worker : List String) × ((profile ≡ "host") ⊎ (profile ≡ "container"))
        × (profile_of env ≡ profile)
        × Selected worker_name worker
        × ((env.root ++ "/.env")
              ∷ (env.root ++ "/config/env/" ++ profile ++ ".env")
              ∷ (worker +++ (env.root ++ "/secrets/local-runtime-secrets.env") ∷ [])
            ≡ files)
  unfolding environment_files
  environment_files-eq-ok worker_name files h =
      elim (Bool-cases (profile_of env == "host" || profile_of env == "container")) [
        | inr unknown ↦ absurd (cc (rw unknown at h))
        | inl known ↦
            let (worker, selected, same) =
              >>=-eq-ok (selected_file env (or_else worker_name (env.getenv "RAG_WORKER_NAME")))
                (λ w. ok (ordered env w)) (rw known at h) in
            (
              profile_of env,
              worker,
              is_known (profile_of env) known,
              refl,
              FileOf-Selected worker_name worker (
                  selected_file-eq-ok (or_else worker_name (env.getenv "RAG_WORKER_NAME")) worker
                    selected),
              ok_unique refl same,
            )
      ]
    where
      is_known :
          (profile : String)
          → (profile == "host" || profile == "container") ≡ true
          → (profile ≡ "host") ⊎ (profile ≡ "container")
      is_known profile k = elim (Bool-cases (profile == "host")) [
        | inl host ↦ inl ((eq_iff profile "host").0 host)
        | inr other ↦ inr ((eq_iff profile "container").0 (rw other at k))
      ]
