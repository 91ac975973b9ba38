-- ===== src/Examples/InstallCases.antt =====
-- Runs of the installer.
use gigmcp.Base.{
  [], ◌∷◌, false, ◌≡◌, refl, lit, none, some, ok, err, text_beq, upsert, first_where, update_where,
  any, read_lines, split_lines, join_lines,
}
use gigmcp.Store.Types.{Injection}
use gigmcp.Store.Manifests.{put_manifest, get_manifest, record_consent, needs_reconsent}
use gigmcp.Store.Accounts.{ensure_server}
use gigmcp.Gateway.SpawnGate.{spawn_gate, requires_reconsent}
use gigmcp.Registry.Installer.{
  Descriptor, Manifest, World, injection_of, prior_placeholder, build_injections, prior_of,
  is_first_consent, maybe_consent, ensure_row, refresh, fresh_install, install,
}
use gigmcp.Registry.Installer.Upgrade.{IsInstalled, install-IsInstalled}
use gigmcp.Examples.StoreCases.{db}

abbrev token : Descriptor
token = record {
  id = lit "token";
  type = lit "api_key";
  provider = [];
  vendor = lit "google";
  scopes = [];
  header = lit "Authorization";
  format = [];
  env = [];
}

abbrev echo : Manifest
echo = record {
  name = lit "echo";
  version = lit "1";
  digest = [];
  tier = lit "sealed";
  entrypoint = lit "/echo";
  display_name = [];
  category = [];
  description = [];
  egress = [];
  credentials = token ∷ [];
  tools = [];
  toolpack = false;
  runtime_hash = lit "h1";
}

abbrev world : World
world = record {
  on_disk = false;
  pulled = none;
  random = some (lit "gigph-1") ∷ [];
  stage_dir = lit "/d";
  dest = lit "/d/server";
}

abbrev echo_changed : Manifest
echo_changed = record echo { version = lit "2"; runtime_hash = lit "h2" }

succeeds : (install false echo world db).0 ≡ ok tt
unfolding install get_manifest first_where fresh_install build_injections prior_placeholder
succeeds = refl

install-IsInstalled_example :
    IsInstalled false echo world (prior_of echo db) db (install false echo world db).1
install-IsInstalled_example = install-IsInstalled false echo world db succeeds

-- The changed manifest waits for its consent.
upgrade_refused :
    spawn_gate (lit "echo") (install false echo_changed world (install false echo world db).1).1
    ≡ err requires_reconsent
unfolding spawn_gate needs_reconsent install get_manifest first_where fresh_install refresh
    build_injections prior_placeholder maybe_consent is_first_consent ensure_row ensure_server
    put_manifest record_consent upsert update_where any text_beq read_lines split_lines join_lines
upgrade_refused = refl

abbrev had : Injection
had = injection_of (record token { vendor = [] }) (lit "gigph-0")
