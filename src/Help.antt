-- ===== src/Help.antt =====
-- help of src/ptrim.cc, src/ptrim-client.cc and src/ptrim-server.cc.
pub mod Ptrim
pub mod Client
pub mod Server
pub mod Laws
use plasma_trim_cli.Base.{ℕ}
use plasma_trim_cli.Machine.{Machine, M, ◌>>=◌, ◌>>◌}
use plasma_trim_cli.Text.{
  print_all, ptrim_lib_version, ptrim_version, ptrim_client_version, ptrim_server_version,
}
use plasma_trim_cli.Help.Ptrim.{ptrim_texts}
use plasma_trim_cli.Help.Client.{client_texts}
use plasma_trim_cli.Help.Server.{server_texts}

module _ {m : Machine} where
  unfoldable pub ptrim_help : ℕ → M m (Unit {0})
  ptrim_help columns = do
    ptrim_lib_version columns
    ptrim_version columns
    print_all columns ptrim_texts

  unfoldable pub client_help : ℕ → M m (Unit {0})
  client_help columns = do
    ptrim_lib_version columns
    ptrim_client_version columns
    print_all columns client_texts

  unfoldable pub server_help : ℕ → M m (Unit {0})
  server_help columns = do
    ptrim_lib_version columns
    ptrim_server_version columns
    print_all columns server_texts
