-- ===== src/Permissions/Tables.antt =====
-- The tables of src/carve/core/agents/permissions/policy.py: tool names, and the programs,
-- subcommands and flags that the bash tiers are made of.
use carve.Common.{String, List, [], ◌∷◌, ◌==◌, string_eq, if◌then◌else◌}

abbrev pub write_tools : List String
write_tools = "edit" ∷ "create_file" ∷ "write_file" ∷ "run_snowflake_ddl" ∷ []

abbrev pub skill_read_tools : List String
skill_read_tools =
    "existing_dlt_inspect" ∷ "rest_api_explore" ∷ "dbt_manifest" ∷ "dbt_source_lookup"
    ∷ "dbt_conventions" ∷ "pipeline_inspect" ∷ "list_components" ∷ "list_dbt_models" ∷ "dlt_library"
    ∷ []

abbrev pub all_tools : List String
all_tools =
    "read_file" ∷ "glob" ∷ "grep" ∷ "web_fetch" ∷ "web_search" ∷ "todo" ∷ "run_snowflake_query"
    ∷ "sql" ∷ "lookup_skill_pack" ∷ "bash" ∷ "edit" ∷ "create_file" ∷ "write_file"
    ∷ "run_snowflake_ddl" ∷ "delegate" ∷ skill_read_tools

abbrev pub read_tools : List String
read_tools =
    "read_file" ∷ "glob" ∷ "grep" ∷ "web_fetch" ∷ "web_search" ∷ "todo" ∷ "run_snowflake_query"
    ∷ "sql" ∷ "lookup_skill_pack" ∷ "bash" ∷ "delegate" ∷ skill_read_tools

abbrev pub read_bash_allow : List String
read_bash_allow =
    "pwd" ∷ "echo" ∷ "which" ∷ "true" ∷ "false" ∷ "date" ∷ "printenv" ∷ "git status" ∷ "git diff"
    ∷ "git log" ∷ "git show" ∷ "git branch" ∷ "git rev-parse" ∷ "git ls-files" ∷ "dbt ls"
    ∷ "dbt parse" ∷ "dbt compile" ∷ "dbt debug" ∷ "dlt --version" ∷ "carve pipelines validate" ∷ []

abbrev pub build_bash_allow : List String
build_bash_allow =
    "git add" ∷ "git commit" ∷ "git checkout" ∷ "git switch" ∷ "git restore" ∷ "git stash"
    ∷ "git merge" ∷ "git rebase" ∷ "git reset" ∷ "git tag" ∷ "dbt run" ∷ "dbt build" ∷ "dbt seed"
    ∷ "dbt test" ∷ "dbt snapshot" ∷ "dlt pipeline" ∷ "dlt init" ∷ []

abbrev pub deploy_bash_prompt : List String
deploy_bash_prompt = "git push" ∷ "gh pr create" ∷ "gh pr merge" ∷ "dlt deploy" ∷ []

abbrev pub always_deny : List String
always_deny =
    "sh" ∷ "bash" ∷ "zsh" ∷ "fish" ∷ "dash" ∷ "ksh" ∷ "csh" ∷ "tcsh" ∷ "eval" ∷ "exec" ∷ "source"
    ∷ "." ∷ "sudo" ∷ "su" ∷ "doas" ∷ "python" ∷ "python2" ∷ "python3" ∷ "perl" ∷ "ruby" ∷ "node"
    ∷ "nodejs" ∷ "deno" ∷ "bun" ∷ "php" ∷ "lua" ∷ "Rscript" ∷ "pip" ∷ "pip3" ∷ "pipx" ∷ "uv" ∷ "uvx"
    ∷ "poetry" ∷ "conda" ∷ "npm" ∷ "npx" ∷ "pnpm" ∷ "yarn" ∷ "gem" ∷ "cargo" ∷ "curl" ∷ "wget"
    ∷ "nc" ∷ "ncat" ∷ "netcat" ∷ "socat" ∷ "ssh" ∷ "scp" ∷ "sftp" ∷ "rsync" ∷ "ftp" ∷ "telnet"
    ∷ "env" ∷ "xargs" ∷ "find" ∷ "awk" ∷ "gawk" ∷ "mawk" ∷ "sed" ∷ "watch" ∷ "timeout" ∷ "nohup"
    ∷ "nice" ∷ "ionice" ∷ "setsid" ∷ "stdbuf" ∷ "tee" ∷ "rm" ∷ "mv" ∷ "cp" ∷ "ln" ∷ "dd" ∷ "chmod"
    ∷ "chown" ∷ "chgrp" ∷ "mkfifo" ∷ "mknod" ∷ "truncate" ∷ "shred" ∷ "install" ∷ []

-- `DANGEROUS_BASH_FLAGS.get(prog, ∅)`
unfoldable pub dangerous_bash_flags : String → List String
dangerous_bash_flags prog =
    if prog == "git"
    then "-c" ∷ "--config-env" ∷ "--exec-path" ∷ "--upload-pack" ∷ "--receive-pack" ∷ "--ext-diff"
      ∷ "--no-index" ∷ "-C" ∷ "-o" ∷ "--output" ∷ "--git-dir" ∷ "--work-tree" ∷ []
    else if prog == "dbt"
    then "--profiles-dir" ∷ "--project-dir" ∷ "--profile" ∷ "--log-path" ∷ "--target-path" ∷ []
    else if prog == "dlt"
    then "--profiles-dir" ∷ "--project-dir" ∷ "--log-path" ∷ "--target-path" ∷ []
    else if prog == "carve"
    then "--project-dir" ∷ []
    else []
