-- ===== src/Api/Requests/Run.antt =====
-- The requests of the control plane that touch profiles and their servers, in any order.
use gigmcp.Base.{Text, List, [], ◌∷◌, comparable_text, comparable_int, Option, Result}
use gigmcp.Auth.Session.{Context}
use gigmcp.Api.Types.{Failure, Control, Env}
use gigmcp.Api.Profiles.{handle_create_profile}
use gigmcp.Api.Profiles.Ownership.{ProfileRequest, handle}
use gigmcp.Api.Apps.{
  app_installed, handle_install_for_user, app_uninstalled, handle_uninstall_for_user,
}
use gigmcp.Api.Servers.{Installer, handle_uninstall_server}
use gigmcp.Api.Requests.{IsSound}
use gigmcp.Api.Requests.Sound.{
  handle-IsSound, create-IsSound, installed-IsSound, uninstalled-IsSound, for_app-IsSound,
}
use gigmcp.Api.Requests.Sweep.{IsSwept, uninstall_server-IsSound}

pub data Request : Type 0 where
  of_profile : ProfileRequest → Text → Request
  create : Result Failure (Text × Text) → Request
  install uninstall_own remove : Text → Request

-- A request, with what it meets: its faults and parameters, the installer, and its context.
pub record Arrival : Type 0 where
  pub env : Env
  pub installer : Option Installer
  pub ctx : Option Context
  pub request : Request

unfoldable pub served : Env → Option Installer → Option Context → Request → Control → Control
unfolding handle handle_create_profile handle_install_for_user handle_uninstall_for_user
    handle_uninstall_server
served env i ctx (of_profile r text) s = (handle env ctx r text s).1
served env i ctx (create body) s = (handle_create_profile env ctx body s).1
served env i ctx (install name) s = (handle_install_for_user env ctx name s).1
served env i ctx (uninstall_own name) s = (handle_uninstall_for_user env ctx name s).1
served env i ctx (remove name) s = (handle_uninstall_server env i ctx name s).1

unfoldable pub run : List Arrival → Control → Control
unfolding served
run [] s = s
run (a ∷ arrivals) s = run arrivals (served a.env a.installer a.ctx a.request s)

-- A removal of a server is swept unless the removal from the bundles failed and then the cascade
-- failed between its statements.
abbrev pub IsClean : Env → Request → Type 0
IsClean env (of_profile r text) = Unit
IsClean env (create body) = Unit
IsClean env (install name) = Unit
IsClean env (uninstall_own name) = Unit
IsClean env (remove name) = IsSwept env

abbrev pub AllClean : List Arrival → Type 0
AllClean [] = Unit
AllClean (a ∷ arrivals) = IsClean a.env a.request × AllClean arrivals

served-IsSound :
    (env : Env) (i : Option Installer) (ctx : Option Context) (r : Request) (s : Control)
    → IsClean env r
    → IsSound s.db
    → IsSound (served env i ctx r s).db
unfolding served handle_install_for_user handle_uninstall_for_user
served-IsSound env i ctx (of_profile r text) s clean h = handle-IsSound env ctx r text s h
served-IsSound env i ctx (create body) s clean h = create-IsSound env ctx body s h
served-IsSound env i ctx (install name) s clean h =
    for_app-IsSound env ctx (app_installed env ctx) name s
      (λ user. installed-IsSound env ctx user name s h) h
served-IsSound env i ctx (uninstall_own name) s clean h =
    for_app-IsSound env ctx (app_uninstalled env ctx) name s
      (λ user. uninstalled-IsSound env ctx user name s h) h
served-IsSound env i ctx (remove name) s swept_ h =
    uninstall_server-IsSound env ctx i name s swept_ h

-- However requests on profiles and installs and removals of servers, by whatever callers, follow one
-- another, and whichever reads, writes, statements and audit rows fail, except that no removal of a
-- server fails to take it from the bundles and then between the statements of its cascade: if it was
-- so before the first request, then after the last one ids and slugs of profiles are unique, the ids
-- at most the sequence, and the owner of each profile has installed every server in its bundle.
pub run-IsSound :
    (arrivals : List Arrival) (s : Control)
    → AllClean arrivals
    → IsSound s.db
    → IsSound (run arrivals s).db
unfolding run
run-IsSound [] s clean h = h
run-IsSound (a ∷ arrivals) s clean h =
    run-IsSound arrivals (served a.env a.installer a.ctx a.request s) clean.1
      (served-IsSound a.env a.installer a.ctx a.request s clean.0 h)
