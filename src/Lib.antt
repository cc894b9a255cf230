-- ===== src/Lib.antt =====
-- A model of the parts of rules_python that run or pack Python programs, and what is proved of it.
--
-- The program. Bazel rules build Python binaries, tests and wheels. At run time a program finds its
-- data files, the runfiles, with the library python/runfiles/runfiles.py. At build time the tool
-- tools/private/zipapp/zipper.py packs a program and its runfiles into a zip from a manifest of
-- lines, and tools/wheelmaker.py builds a wheel from files, arguments and metadata. The release tool
-- under tools/private/release finds the next version, writes it into the files, keeps the checklist of
-- a release in the body of its tracking issue, and has the commands that prepare a release, cherry-pick backports, tag
-- release candidates and promote them. At
-- the start of a binary the templates under python/private extract a zip, find the runfiles and set
-- `sys.path`: they read what the zip tool wrote, and set the variables that the runfiles library
-- reads. What the runfiles library and the zip tool share is the layout of the runfiles directory, which the zip holds and the library
-- searches. The commands of the release tool read the checklist from GitHub, call git, and write the
-- checklist back; create-rc runs process-backports first, and backport-create-releases reads the issue
-- that backport-prepare writes.
--
-- The files.
--   Base: the library's names, texts as lists of code points, equality, lists, dicts in insertion
--     order, sorting, and Python's exceptions as values (`Result`). The error `diverged` is no
--     exception: it stands for a loop that ran out of fuel.
--   Text, Posix: the methods of `str` that the sources use, and `posixpath`.
--   Runfiles.Mapping: `_RepositoryMapping` of python/runfiles/runfiles.py.
--   Runfiles.Manifest, Runfiles.Strategy: `_ManifestBased` and `_DirectoryBased`.
--   Runfiles.Caller, Runfiles.Location: `CurrentRepository`, and `Rlocation`, `Create`, `EnvVars` and
--     the strings of a runfiles `Path`.
--   Zipapp.Entry: the lines of a zip manifest and their order, in tools/private/zipapp/zipper.py.
--   Zipapp.Write: the members that are written, one for each path.
--   Bootstrap.Root, Bootstrap.Envvar, Bootstrap.SitePackages, Bootstrap.Stage2: the second stage of the
--     start of a binary, python/private/stage2_bootstrap_template.py: `find_runfiles_root`,
--     `runfiles_envvar`, `_add_site_packages` and `main`.
--   Bootstrap.SiteInit: `sys.path` in python/private/site_init_template.py.
--   Bootstrap.Extract, Bootstrap.ZipMain: `extract_zip` and `main` of
--     python/private/zipapp/zip_main_template.py.
--   Wheel.Naming: the names of packages, wheels and members, in tools/wheelmaker.py.
--   Wheel.Archive: `_WhlFile`, its files, strings and RECORD.
--   Wheel.Metadata, Wheel.Command: stamps, requirements, the WHEEL and METADATA texts, and `main`.
--   Release.Versions, Release.Placeholders: version tags, the next version, and the placeholders of
--     versions in files, in tools/private/release/utils.py.
--   Release.Checklist: the lines of the checklist, `parse_metadata_line` and `format_metadata_line` of
--     tools/private/release/release_issue.py.
--   Release.Issue: the body of the tracking issue: `update_task_in_body`; State has
--     `parse_checklist_state`, Tasks `add_rc_task_to_body` and `add_sync_changelog_task_to_body`,
--     Backports `parse_backports` and `add_backports_to_body`.
--   Release.Action: the calls that the commands make, in their order, the answers to them, and
--     `try`, `except` and `finally`.
--   Release.Git, Release.PullRequests: the methods of tools/private/release/git.py as runs of git, and
--     the references and merge commits of pull requests in tools/private/release/gh.py.
--   Release.ReleaseTitle: the version in the title of an issue and the next release candidate.
--   Release.ProcessBackports, Release.CreateRc, Release.Promote, Release.AddBackports,
--     Release.Prepare: the commands of those names in tools/private/release. `run` is the command.
--   Release.BackportIssue, Release.BackportReleases: the body of a backport issue and the command that
--     starts the releases of a backport, in tools/private/release/backport_create_releases.py and
--     backport_prepare.py.
--   Release.BackportTargets, Release.BackportPrepare: the branches that a backport is tried on and the
--     command that tries them, in tools/private/release/backport_prepare.py.
--   Release.SyncChangelog: the command that syncs the changelog to main, in
--     tools/private/release/sync_changelog.py.
--   Release.News: the news entries, the block of a release in the changelog and the merge of
--     news into a block that is there, in tools/private/release/changelog_news.py.
-- The modules below each of these hold its proofs, and Tests holds runs on concrete inputs.
--
-- Bounds. The search through a manifest has a round for each character of the path and one more: each
-- round but the last finds a slash further left. The search for the runfiles of a script has a round
-- for each link that is followed and one more. The loop that copies a file has a round for each
-- byte and one more: each round but the last copies a byte at least. The walk through a directory has
-- the depth of the directories as its fuel.
--
-- Conventions. Paths are those of a platform whose separator is a slash. `lower` is that of ASCII
-- characters. Files are functions from their paths, the same at each reading. What lies outside the
-- repository is a parameter: the interpreter's view of the caller, the file system, what it does
-- with a path through a link, SHA-256, the encoding, `packaging.version`, `packaging.requirements`,
-- the tags and the branch of git, the text of an exception, and the letters beyond ASCII. `\d` is an
-- ASCII digit.
--
-- Not modelled: the methods of `Path` that hand over to `pathlib`, the parsing of arguments by
-- `argparse`, compression, the processing of the news, the release tool's commands that only mark a
-- task as done or dispatch, the installation of wheels, the running of gh and its JSON, the working
-- tree of git, coverage and Windows in the templates, the documentation generators, and the rules
-- themselves, which are written in Starlark.
pub mod Base
pub mod Text
pub mod Posix
pub mod Runfiles
pub mod Zipapp
pub mod Bootstrap
pub mod Wheel
pub mod Release
