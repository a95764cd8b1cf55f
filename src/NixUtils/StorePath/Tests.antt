-- ===== src/NixUtils/StorePath/Tests.antt =====
-- Store paths: tests, and the theorems at concrete paths.
use hydra_queue_runner.Base.{◌≡◌, refl, true, false}
use hydra_queue_runner.Base.Text.{codes, strip_prefix}
use hydra_queue_runner.NixUtils.StorePath.{
  StorePath, ends_with, new_store_path, print_store_path, is_drv,
}
use hydra_queue_runner.NixUtils.StorePath.Laws.{new-print}

abbrev package_path : StorePath
package_path = record { base_name = codes "abc123def45678901234567890123456-package.drv" }

is_drv_tests :
    (is_drv package_path ≡ true)
    × (is_drv (record { base_name = codes "abc123def45678901234567890123456-package" }) ≡ false)
    × (is_drv (record { base_name = codes ".drv" }) ≡ false)
    × (is_drv (record { base_name = codes "a/x.DRV/" }) ≡ true)
unfolding is_drv
is_drv_tests = (refl, refl, refl, refl)

new-print_example :
    new_store_path (codes "/nix/store") (print_store_path (codes "/nix/store") package_path)
    ≡ package_path
unfolding ends_with strip_prefix
new-print_example = new-print (codes "/nix/store") package_path refl refl
