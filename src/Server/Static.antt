-- ===== src/Server/Static.antt =====
-- lsengine/internal/server/server.go, `staticHandler`: where the files are that it serves.
use lsengine_js.Base.{
  ◌≡◌, ◌∙◌, ap, subst, ◌⊎◌, inl, inr, true, false, List, arith, All, Bool-cases, Text, bytes,
  text_eq, text_eq_iff, has_prefix, contains,
}
use lsengine_js.Paths.{from_root, join_path, rel_path}
use lsengine_js.Paths.Clean.{IsName}
use lsengine_js.Paths.Inside.{IsBelow, join_path-IsBelow}
use lsengine_js.Security.{FileSystem}
use lsengine_js.Security.Reading.{exists_at}
use lsengine_js.Server.Handlers.{HttpServer, file, static_target}

-- A file that is served as a static file is below the project, and its URL has no `..`; or it is the entry
-- point of the settings, which exists, for the URL `/`. The project's directory is a path from the root.
pub static_target-IsBelow :
    (fs : FileSystem) (s : HttpServer) (rs : List Text) (path name : Text)
    → All IsName rs
    → s.project_root ≡ from_root rs
    → static_target fs s path ≡ file name
    → (contains path (bytes "..") ≡ false)
      × (((path ≡ bytes "/")
            × (name ≡ join_path s.project_root s.config.entry_point)
            × (exists_at fs name ≡ true))
          ⊎ (IsBelow rs name × (name ≡ join_path s.project_root path)))
unfolding static_target
static_target-IsBelow fs s rs path name names root h =
    elim (Bool-cases (contains path (bytes ".."))) [
      | inl e ↦ absurd (ground (arith, e, h))
      | inr plain ↦ (
        plain,
        elim (Bool-cases (text_eq path (bytes "/"))) [
          | inl e ↦
              elim (Bool-cases (exists_at fs (join_path s.project_root s.config.entry_point))) [
                | inl k ↦
                    (let same : name ≡ join_path s.project_root s.config.entry_point =
                        ground (arith, plain, e, k, h) in
                      inl ((text_eq_iff path (bytes "/")).0 e, same, ap (exists_at fs) same ∙ k))
                | inr k ↦ absurd (ground (arith, plain, e, k, h))
              ]
          | inr e ↦
              elim (Bool-cases (
                has_prefix (rel_path s.project_root (join_path s.project_root path))
                  (bytes ".."))) [
                    | inl k ↦ absurd (ground (arith, plain, e, k, h))
                    | inr k ↦
                        (let same : name ≡ join_path s.project_root path =
                            ground (arith, plain, e, k, h) in
                          let inside =
                            subst
                              (λ t. has_prefix (rel_path t (join_path t path)) (bytes "..") ≡ false)
                              root k in
                          let (rest, rest_names, at, short) =
                            join_path-IsBelow rs path names inside in
                          inr
                            ((rest, rest_names, same ∙ ap (λ t. join_path t path) root ∙ at), same))
                  ]
        ],
      )
    ]
