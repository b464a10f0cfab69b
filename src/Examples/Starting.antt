-- ===== src/Examples/Starting.antt =====
-- The start of the server over a table with one user.
use qt_messenger.Prelude.{
  ◌≡◌, ◌≤◌, decide, if◌then◌else◌, arith, refl, true, List, some, none, [], ◌∷◌, ◌++◌, bytes,
}
use qt_messenger.Database.{initialize, create, seed}
use qt_messenger.UnorderedMap.{find}
use qt_messenger.Server.{Server, Completion, accepted, lost_socket, new_server, start, run}
use qt_messenger.Server.Invariant.{IsSound}
use qt_messenger.Server.Main.{serve, checks, serve-IsSound}
use qt_messenger.Examples.SampleQt.{sample_qt, Bytes-discrete}
use qt_messenger.Examples.SampleSql.{sample_sql}
use qt_messenger.Examples.Accounts.{ann_only}
use qt_messenger.Examples.Serving.{completions}

abbrev served : Server
served = start (new_server 4)

is_served : serve (λ n. n) ann_only ≡ some (served, ann_only)
unfolding serve initialize create seed
is_served = refl

nobody_unnamed : find Bytes-discrete [] ann_only ≡ none
unfolding find
nobody_unnamed =
    elim (Bytes-discrete (bytes "ann") [])
      as (λ d. (if decide d then some (bytes "pw") else none) ≡ none) [
        | yes e ↦ absurd (cc e)
        | no n ↦ refl
      ]

-- A connection is lost after the rest.
abbrev lossy : List Completion
lossy = completions ++ accepted lost_socket ∷ []

serve-IsSound_example :
    let after = (run (λ k. checks ann_only) lossy served).0 in
    (4 ≤ served.threads)
    × IsSound after
    × (after.terminated ≡ true)
    × (after.accepts ≡ 0)
    × (after.running ≡ true)
serve-IsSound_example =
    serve-IsSound (λ n. n) ann_only ann_only served (λ k. ann_only) lossy (λ n. omega arith)
      is_served (λ k. nobody_unnamed)
