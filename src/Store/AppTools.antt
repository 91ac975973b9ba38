-- ===== src/Store/AppTools.antt =====
-- internal/store/disabledtools.go: the tools that an administrator turned off for an app.
use gigmcp.Base.{
  Text, List, Bool, true, false, ◌&&◌, ◌==◌, comparable_text, where_, map, delete_where,
  insert_or_ignore,
}
use gigmcp.Store.Types.{Db}
use gigmcp.Store.Installs.{order}

abbrev pub is_tool_row : Text → Text → Text × Text → Bool
is_tool_row server tool row = row.0 == server && row.1 == tool

unfoldable pub list_disabled_tools : Text → Db → List Text
unfolding order
list_disabled_tools server db =
    order
      (map (λ (row : Text × Text). row.1) (where_ (λ row. row.0 == server) db.app_disabled_tools))

unfoldable pub set_tool_enabled : Text → Text → Bool → Db → Db
set_tool_enabled server tool true db = record db {
  app_disabled_tools = delete_where (is_tool_row server tool) db.app_disabled_tools;
}
set_tool_enabled server tool false db = record db {
  app_disabled_tools =
      insert_or_ignore (is_tool_row server tool) (server, tool) db.app_disabled_tools;
}

unfoldable pub delete_disabled_tools_for_server : Text → Db → Db
delete_disabled_tools_for_server server db = record db {
  app_disabled_tools = delete_where (λ row. row.0 == server) db.app_disabled_tools;
}
