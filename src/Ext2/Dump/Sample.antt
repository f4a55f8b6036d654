-- ===== src/Ext2/Dump/Sample.antt =====
-- An image with a root directory of two entries, as readImage.c prints it.
use cscc.Prelude.{◌==◌, ltb, if◌then◌else◌, Memory, ◌≡◌, refl, [], ◌∷◌}
use cscc.Ext2.Run.{done}
use cscc.Ext2.Inodes.{used_from}
use cscc.Ext2.Tools.Ls.{c_string}
use cscc.Ext2.Dump.{Output, bits_from, read_image}
use cscc.Ext2.Dump.Agree.{Agrees, read_image-Agrees}
use cscc.Ext2.Examples.{image, home}

-- The root inode is a directory with block 9.
abbrev rooted : Memory
rooted a =
    if a == 5248
    then 237
    else if a == 5249
    then 65
    else if a == 5288
    then 9
    else if ltb a 9216
    then image a
    else home a

abbrev printed : Output
unfolding bits_from
printed = record {
  inodes_count = 32;
  blocks_count = 128;
  block_bitmap = 3;
  inode_bitmap = 4;
  inode_table = 5;
  free_blocks = 119;
  free_inodes = 20;
  used_dirs = 0;
  block_bits = bits_from rooted 3072 128 0;
  inode_bits = bits_from rooted 4096 32 0;
  inodes =
      record { number = 2; type = b'd'; size = 0; links = 0; blocks = 0; block_list = 9 ∷ [] }
      ∷ record { number = 12; type = b's'; size = 0; links = 1; blocks = 0; block_list = [] }
      ∷ [];
  directories =
      record {
        block = 9;
        inode = 2;
        entries =
            record { inode = 2; length = 12; name_length = 1; type = b'd'; name = 46 ∷ [] }
            ∷ record { inode = 12; length = 1012; name_length = 1; type = b'f'; name = 97 ∷ [] }
            ∷ [];
      }
      ∷ [];
}

rooted-printed : read_image rooted ≡ done printed
unfolding read_image used_from bits_from c_string
rooted-printed = refl

read_image-Agrees_example : Agrees rooted printed
read_image-Agrees_example = read_image-Agrees rooted printed rooted-printed
